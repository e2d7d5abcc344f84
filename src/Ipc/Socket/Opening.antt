-- ===== src/Ipc/Socket/Opening.antt =====
-- What the constructor of Socket opens, tools/connection/main.cpp.
use qbind.Base.{
  ℕ, zero, suc, ◌≡◌, ◌≢◌, refl, sym, ap, ◌∙◌, ◌⊎◌, inl, inr, true, false, Option, none, some, List,
  ◌*◌, ◌%◌, ◌^◌,
}
use qbind.Base.Tests.{◌==◌, if◌then◌else◌}
use qbind.Base.Int.{ℤ}
use qbind.Base.Outcome.{Outcome, ok, throw, undefined, terminated, Message}
use qbind.Ipc.Os.{
  Io, continue, ◌>>=◌, ◌>>◌, done, Family, Reply, told, bad_errno, bad_size, nothing, unknown,
  reply, on_reply, Os, retry, throw_errno,
}
use qbind.Ipc.Socket.{
  Socket, Process, or_throw_errno, hostname_to_ips, gethostname, static_or, local_addresses,
  errno_place, is_unix, set_options, connect_to, open_socket, domain_of, construct,
}
use qbind.Ipc.Socket.Kernel.{
  Kernel, Keeps, continue-Keeps, >>=-Keeps, >>-Keeps, throw_errno-Keeps, hostname_to_ips-Keeps,
  gethostname-Keeps, set_options-Keeps, connect_to-Keeps,
}

module _ {W : Type 0} (os : Os W) where
  -- `throw_errno` returns nothing.
  on_reply-throws :
      {A : Type 0} (r : Reply) (code : ℕ) (ss : Message) (s : List ℕ) (w : W)
      (bigger same : Outcome A × W) (a : A)
      → bigger.0 ≢ ok a
      → same.0 ≢ ok a
      → (on_reply os r code ss s w bigger same).0 ≢ ok a
  on_reply-throws told code ss s w bigger same a h h' = λ e. cc
  on_reply-throws bad_errno code ss s w bigger same a h h' = λ e. cc
  on_reply-throws bad_size code ss s w bigger same a h h' = h
  on_reply-throws nothing code ss s w bigger same a h h' = h'
  on_reply-throws (unknown rc) code ss s w bigger same a h h' = λ e. cc

  retry-throws :
      (A : Type 0) (fuel code : ℕ) (ss : Message) (size : ℕ) (r : (ℤ × List ℕ) × W) (a : A)
      → (retry os {A = A} fuel code ss size r).0 ≢ ok a
  unfolding retry
  retry-throws A zero code ss size ((rc, s), w) a = λ e. cc
  retry-throws A (suc fuel) code ss size ((rc, s), w) a =
      let twice = size * 2 % 2 ^ 64 in
      on_reply-throws (reply rc (os.errno w)) code ss s w _ _ a
        (retry-throws A fuel code ss twice (os.strerror_r code twice w) a)
        (retry-throws A fuel code ss size (os.strerror_r code size w) a)

  throw_errno-throws :
      (A : Type 0) (p : Message) (w : W) (a : A) → (throw_errno os {A = A} p w).0 ≢ ok a
  unfolding throw_errno
  throw_errno-throws A p w a =
      retry-throws A 64 (os.errno w) p 1024 (os.strerror_r (os.errno w) 1024 w) a

module _ {W : Type 0} where
  continue-throws :
      {A B : Type 0} (next : A → Io W B) (r : Outcome A × W) (b : B)
      → ((a : A) → r.0 ≢ ok a)
      → (continue next r).0 ≢ ok b
  continue-throws next (ok a, t) b h = absurd (h a refl)
  continue-throws next (throw e, t) b h = λ e. cc
  continue-throws next (undefined, t) b h = λ e. cc
  continue-throws next (terminated, t) b h = λ e. cc

  -- A sequence that returned has run its last part.
  continue-ok :
      {A B : Type 0} (next : Io W B) (r : Outcome A × W) (b : B)
      → (continue (λ a. next) r).0 ≡ ok b
      → (t : W) × ((next t).0 ≡ ok b)
  continue-ok next (ok a, t) b h = (t, h)
  continue-ok next (throw e, t) b h = cc
  continue-ok next (undefined, t) b h = cc
  continue-ok next (terminated, t) b h = cc

  >>-ok :
      {B : Type 0} (call : Io W (Unit {0})) (next : Io W B) (w : W) (b : B)
      → ((call >> next) w).0 ≡ ok b
      → (t : W) × ((next t).0 ≡ ok b)
  unfolding ◌>>◌ ◌>>=◌
  >>-ok call next w b h = continue-ok next (call w) b h

module _ {W : Type 0} (os : Os W) (k : Kernel os) where
  -- How the constructor ends: without a new descriptor and with no socket, or with one that was not
  -- open before, which the socket has if there is one.
  abbrev pub Opened : (before after : W) → Outcome Socket → Type 0
  Opened w t r =
      (((d : ℕ) → k.is_open t d ≡ k.is_open w d) × ((s : Socket) → r ≢ ok s))
      ⊎ ((fd : ℕ) × (k.is_open w fd ≡ false)
          × ((d : ℕ) → k.is_open t d ≡ (if d == fd then true else k.is_open w d))
          × ((s : Socket) → r ≡ ok s → s.m_fd ≡ some fd))

  open_socket-Opened :
      (f : Family) (ip : List ℕ) (port : ℕ) (timeout : ℤ) (w : W)
      → Opened w (open_socket os f ip port timeout w).1 (open_socket os f ip port timeout w).0
  unfolding open_socket ◌>>=◌
  open_socket-Opened f ip port timeout w = opened (os.socket f w).0 (os.socket f w).1 refl
    where
      rest : ℕ → Io W Socket
      rest fd =
          set_options os fd f timeout
          >> (connect_to os fd f ip port
              >> done (record { m_fd = some fd; m_is_unix_domain_socket = is_unix f }))

      rest-Keeps : (fd : ℕ) → Keeps os k (rest fd)
      rest-Keeps fd =
          >>-Keeps os k _ _ (set_options-Keeps os k fd f timeout)
            (>>-Keeps os k _ _ (connect_to-Keeps os k fd f ip port) (λ w d. refl))

      opened :
          (r : Option ℕ) (t : W)
          → os.socket f w ≡ (r, t)
          → Opened w
              (continue rest (or_throw_errno os r t)).1
              (continue rest (or_throw_errno os r t)).0
      opened none t e = inl (
        λ d.
            continue-Keeps os k rest (throw_errno os errno_place t) t d rest-Keeps
              (throw_errno-Keeps os k ℕ errno_place t d)
            ∙ k.socket_fails f w t e d,
        λ s.
            continue-throws rest (throw_errno os errno_place t) s
              (throw_errno-throws os ℕ errno_place t),
      )
      opened (some fd) t e =
          let (fresh, only) = k.socket_opens f w t fd e in
          inr (
            fd,
            fresh,
            λ d. rest-Keeps fd t d ∙ only d,
            λ s returned.
                let (u, eu) = >>-ok (set_options os fd f timeout) _ t s returned in
                let (v, ev) = >>-ok (connect_to os fd f ip port) _ u s eu in
                let one : s ≡ record { m_fd = some fd; m_is_unix_domain_socket = is_unix f } = cc in
                ap (λ z. z.m_fd) one,
          )

  -- The same over a process.
  OpenedBy : Process W → Outcome Socket × Process W → Type 0
  OpenedBy p r = Opened p.world r.1.world r.0

  after_Keeps :
      {A : Type 0} (next : A → Io (Process W) Socket) (p : Process W) (r : Outcome A × Process W)
      → ((d : ℕ) → k.is_open r.1.world d ≡ k.is_open p.world d)
      → ((a : A) (q : Process W) → OpenedBy q (next a q))
      → OpenedBy p (continue next r)
  unfolding OpenedBy
  after_Keeps next p (ok a, q) same opened = elim (opened a q) [
    | inl (keeps, fails) ↦ inl (λ d. keeps d ∙ same d, fails)
    | inr (fd, fresh, only, has) ↦ inr (
      fd,
      sym (same fd) ∙ fresh,
      λ d. only d ∙ ap (λ b. if d == fd then true else b) (same d),
      has,
    )
  ]
  after_Keeps next p (throw e, q) same opened = inl (same, λ s e. cc)
  after_Keeps next p (undefined, q) same opened = inl (same, λ s e. cc)
  after_Keeps next p (terminated, q) same opened = inl (same, λ s e. cc)

  static_or-Keeps :
      (ips : Option (List (List ℕ))) (init : Io W (List (List ℕ))) (p : Process W) (d : ℕ)
      → Keeps os k init
      → k.is_open (static_or os ips init p).1.world d ≡ k.is_open p.world d
  static_or-Keeps (some ips) init p d h = refl
  static_or-Keeps none init p d h = h p.world d

  local_addresses-Keeps :
      (p : Process W) (d : ℕ) → k.is_open (local_addresses os p).1.world d ≡ k.is_open p.world d
  unfolding local_addresses
  local_addresses-Keeps p d = static_or-Keeps p.local_ips _ p d (
      >>=-Keeps os k (gethostname os) (hostname_to_ips os) (gethostname-Keeps os k)
        (hostname_to_ips-Keeps os k))

  -- Over a system whose `socket` and `close` alone open and close descriptors: however the
  -- constructor of Socket ends, it has closed nothing and opened nothing, or opened one descriptor
  -- that was not open; where it returns, it has opened one, which the socket has.
  pub construct-Opened :
      (hostname : List ℕ) (port : ℕ) (timeout : ℤ) (p : Process W)
      → Opened p.world
          (construct os hostname port timeout p).1.world
          (construct os hostname port timeout p).0
  unfolding construct ◌>>=◌ OpenedBy
  construct-Opened hostname port timeout p =
      after_Keeps _ p (local_addresses os p) (local_addresses-Keeps p) (λ ips q.
        after_Keeps _ q _
          (λ d.
            continue-Keeps os k _ (hostname_to_ips os hostname q.world) q.world d
              (λ found w d. refl) (hostname_to_ips-Keeps os k hostname q.world d))
          (λ ip r. open_socket-Opened (domain_of os ip ips) ip port timeout r.world))
