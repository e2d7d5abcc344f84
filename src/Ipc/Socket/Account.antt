-- ===== src/Ipc/Socket/Account.antt =====
-- An account of descriptors: which variable of class Socket has which (tools/connection/main.cpp).
use qbind.Base.{
  ℕ, ◌≡◌, ◌≢◌, refl, sym, ap, ◌∙◌, ◌⊎◌, inl, inr, arith, Bool, true, false, Option, none, some,
}
use qbind.Base.Tests.{◌==◌, ==→eq, ==→ne, ne→==, if◌then◌else◌, Bool-cases}

abbrev pub update {ℓ} : {A : Type ℓ} → (ℕ → A) → ℕ → A → ℕ → A
update f i x j = if j == i then x else f j

pub update_self : {A : Type 0} (f : ℕ → A) (i : ℕ) (x : A) → update f i x i ≡ x
update_self f i x = elim (Bool-cases (i == i)) [
  | inl same ↦ rw same refl
  | inr differ ↦ absurd (==→ne i i differ refl)
]

pub update_ne : {A : Type 0} (f : ℕ → A) (i : ℕ) (x : A) (m : ℕ) → m ≢ i → update f i x m ≡ f m
update_ne f i x m ne = rw (ne→== m i ne) refl

update-cases :
    {A : Type 0} (f : ℕ → A) (i : ℕ) (x : A) (m : ℕ) (y : A)
    → update f i x m ≡ y
    → ((m ≡ i) × (x ≡ y)) ⊎ ((m ≢ i) × (f m ≡ y))
update-cases f i x m y e = elim (Bool-cases (m == i)) [
  | inl same ↦ inl (==→eq m i same, rw same at e)
  | inr differ ↦ inr (==→ne m i differ, rw differ at e)
]

pub none≢some : (a : ℕ) → none ≢ some a
none≢some a e = cc

pub true≢false : true ≢ false
true≢false e = cc

-- `i` and `j` exchanged.
abbrev turn : (i j m : ℕ) → ℕ
turn i j m = if m == i then j else if m == j then i else m

pub turn-turn : (i j m : ℕ) → i ≢ j → turn i j (turn i j m) ≡ m
turn-turn i j m ne = ground arith

some-inj : (a b : ℕ) → some a ≡ some b → a ≡ b
some-inj a b e = cc

-- No descriptor is in two variables, each is open, and one that was not open at the start is in a
-- variable, unless one was lost.
pub record Held (start : ℕ → Bool) (lost : Bool) (now : ℕ → Bool) (fds : ℕ → Option ℕ)
    : Type 0 where
  pub sole : (i j fd : ℕ) → fds i ≡ some fd → fds j ≡ some fd → i ≡ j
  pub live : (i fd : ℕ) → fds i ≡ some fd → now fd ≡ true
  pub kept :
      lost ≡ false → (fd : ℕ) → now fd ≡ true → (start fd ≡ true) ⊎ ((i : ℕ) × (fds i ≡ some fd))

module _ {start : ℕ → Bool} {lost : Bool} {now : ℕ → Bool} {fds : ℕ → Option ℕ}
    (h : Held start lost now fds) where
  -- A descriptor that was not open goes to an empty variable.
  pub Held-fresh :
      (now' : ℕ → Bool) (i fd : ℕ)
      → fds i ≡ none
      → now fd ≡ false
      → ((d : ℕ) → now' d ≡ update now fd true d)
      → Held start lost now' (update fds i (some fd))
  Held-fresh now' i fd empty fresh only =
      let not_held = (λ (m d : ℕ) (e : fds m ≡ some d) (same : fd ≡ d).
        true≢false (sym (h.live m d e) ∙ ap now (sym same) ∙ fresh)) in
      record {
        sole = λ m n d e e'. elim (update-cases fds i (some fd) m (some d) e) [
          | inl (at_i, x) ↦ elim (update-cases fds i (some fd) n (some d) e') [
            | inl (at_i', x') ↦ at_i ∙ sym at_i'
            | inr (off, y) ↦ absurd (not_held n d y (some-inj fd d x))
          ]
          | inr (off, y) ↦ elim (update-cases fds i (some fd) n (some d) e') [
            | inl (at_i', x') ↦ absurd (not_held m d y (some-inj fd d x'))
            | inr (off', y') ↦ h.sole m n d y y'
          ]
        ];
        live = λ m d e. only d ∙ elim (update-cases fds i (some fd) m (some d) e) [
          | inl (at_i, x) ↦
              ap (update now fd true) (sym (some-inj fd d x)) ∙ update_self now fd true
          | inr (off, y) ↦
              update_ne now fd true d (λ same. not_held m d y (sym same)) ∙ h.live m d y
        ];
        kept = λ none_lost d e. elim (update-cases now fd true d true (sym (only d) ∙ e)) [
          | inl (at_fd, x) ↦ inr (i, update_self fds i (some fd) ∙ ap some (sym at_fd))
          | inr (off, y) ↦ elim (h.kept none_lost d y) [
            | inl before ↦ inl before
            | inr (m, has) ↦ inr (
              m,
              update_ne fds i (some fd) m (λ same. let none_here = ap fds same ∙ empty in cc) ∙ has,
            )
          ]
        ];
      }

  -- Two variables change places.
  pub Held-swap :
      (i j : ℕ) (fds' : ℕ → Option ℕ)
      → i ≢ j
      → fds' i ≡ fds j
      → fds' j ≡ fds i
      → ((m : ℕ) → m ≢ i → m ≢ j → fds' m ≡ fds m)
      → Held start lost now fds'
  Held-swap i j fds' ne at_i at_j others = record {
    sole = λ m n d e e'.
        let one = h.sole (turn i j m) (turn i j n) d (sym (turned m) ∙ e) (sym (turned n) ∙ e') in
        sym (turn-turn i j m ne) ∙ ap (turn i j) one ∙ turn-turn i j n ne;
    live = λ m d e. h.live (turn i j m) d (sym (turned m) ∙ e);
    kept = λ none_lost d e. elim (h.kept none_lost d e) [
      | inl before ↦ inl before
      | inr (m, has) ↦ inr (turn i j m, turned (turn i j m) ∙ ap fds (turn-turn i j m ne) ∙ has)
    ];
  }
    where
      turned : (m : ℕ) → fds' m ≡ fds (turn i j m)
      turned m = elim (Bool-cases (m == i)) [
        | inl same ↦ rw same (ap fds' (==→eq m i same) ∙ at_i)
        | inr off ↦ elim (Bool-cases (m == j)) [
          | inl same ↦ rw (off, same) (ap fds' (==→eq m j same) ∙ at_j)
          | inr off' ↦ rw (off, off') (others m (==→ne m i off) (==→ne m j off'))
        ]
      ]

  -- A variable gives its descriptor up, which is closed.
  pub Held-close :
      (now' : ℕ → Bool) (i fd : ℕ)
      → fds i ≡ some fd
      → ((d : ℕ) → now' d ≡ update now fd false d)
      → Held start lost now' (update fds i none)
  Held-close now' i fd has only = record {
    sole = λ m n d e e'. elim (update-cases fds i none m (some d) e) [
      | inl (at_i, x) ↦ absurd (let no = x in cc)
      | inr (off, y) ↦ elim (update-cases fds i none n (some d) e') [
        | inl (at_i, x) ↦ absurd (let no = x in cc)
        | inr (off', y') ↦ h.sole m n d y y'
      ]
    ];
    live = λ m d e. only d ∙ elim (update-cases fds i none m (some d) e) [
      | inl (at_i, x) ↦ absurd (let no = x in cc)
      | inr (off, y) ↦
          update_ne now fd false d (λ same. off (h.sole m i d y (has ∙ ap some (sym same))))
          ∙ h.live m d y
    ];
    kept = λ none_lost d e. elim (update-cases now fd false d true (sym (only d) ∙ e)) [
      | inl (at_fd, x) ↦ absurd (let no = x in cc)
      | inr (off, y) ↦ elim (h.kept none_lost d y) [
        | inl before ↦ inl before
        | inr (m, mine) ↦ inr (
          m,
          update_ne fds i none m (λ same. off (some-inj d fd (sym mine ∙ ap fds same ∙ has)))
              ∙ mine,
        )
      ]
    ];
  }

  pub Held-lost :
      (lost' : Bool) (now' : ℕ → Bool)
      → ((fd : ℕ) → now fd ≡ true → now' fd ≡ true)
      → (lost' ≡ false → (lost ≡ false) × ((fd : ℕ) → now' fd ≡ now fd))
      → Held start lost' now' fds
  Held-lost lost' now' more same = record {
    sole = h.sole;
    live = λ i fd e. more fd (h.live i fd e);
    kept = λ none_lost fd e.
        let (before, as_before) = same none_lost in h.kept before fd (sym (as_before fd) ∙ e);
  }
