-- ===== src/Ipc/Socket/Descriptors.antt =====
-- Programs over sockets (tools/connection/main.cpp): any sequence of constructors, moves, calls and
-- destructors, and who has which descriptor.
use qbind.Base.{
  ℕ, ◌≡◌, ◌≢◌, refl, sym, ap, ◌∙◌, inl, inr, Bool, true, false, ◌||◌, Option, none, some, List,
}
use mathlib.Core.Path.{fun_ext, subst}
use qbind.Base.Tests.{◌==◌, ==→eq, Bool-cases}
use qbind.Base.Int.{ℤ}
use qbind.Base.Outcome.{ok}
use qbind.Ipc.{Endian}
use qbind.Ipc.Os.{Os}
use qbind.Ipc.Socket.{
  Socket, Process, construct, move_construct, move_assign, close_fd, destruct, send, recv, peek,
}
use qbind.Ipc.Socket.Kernel.{Kernel, send-Keeps, recv-Keeps, peek-Keeps}
use qbind.Ipc.Socket.Opening.{construct-Opened}
use qbind.Ipc.Socket.Account.{
  update, update_self, update_ne, true≢false, none≢some, Held, Held-fresh, Held-swap, Held-close,
  Held-lost,
}

-- The world, and the sockets by the numbers of their variables; one without a socket holds -1.
pub record Scope (W : Type 0) : Type 0 where
  pub process : Process W
  pub sockets : ℕ → Socket

module _ {W : Type 0} (os : Os W) (k : Kernel os) where
  abbrev pub now_open : Scope W → ℕ → Bool
  now_open s = k.is_open s.process.world

  abbrev pub fd_of : Scope W → ℕ → Option ℕ
  fd_of s i = (s.sockets i).m_fd

  abbrev in_world : Scope W → W → Scope W
  in_world s w = record s { process = record s.process { world = w } }

  abbrev both : (ℕ → Socket) → (i j : ℕ) → Socket × Socket → ℕ → Socket
  both f i j (s, t) = update (update f i s) j t

  -- One step, with whether a constructor threw behind it. Constructors need a variable without a
  -- socket; calls end in any way.
  pub data Step : Bool → Scope W → Scope W → Type 0 where
    constructed :
        (s : Scope W) (i : ℕ) (hostname : List ℕ) (port : ℕ) (timeout : ℤ) (made : Socket)
        → fd_of s i ≡ none
        → (construct os hostname port timeout s.process).0 ≡ ok made
        → Step false s (record {
          process = (construct os hostname port timeout s.process).1;
          sockets = update s.sockets i made;
        })
    not_constructed :
        (s : Scope W) (hostname : List ℕ) (port : ℕ) (timeout : ℤ)
        → ((made : Socket) → (construct os hostname port timeout s.process).0 ≢ ok made)
        → Step true s (record s { process = (construct os hostname port timeout s.process).1 })
    move_constructed :
        (s : Scope W) (i j : ℕ) (garbage : Bool)
        → i ≢ j
        → fd_of s i ≡ none
        → Step false s
            (record s { sockets = both s.sockets i j (move_construct os garbage (s.sockets j)) })
    move_assigned :
        (s : Scope W) (i j : ℕ)
        → i ≢ j
        → Step false s
            (record s { sockets = both s.sockets i j (move_assign os (s.sockets i) (s.sockets j)) })
    destructed :
        (s : Scope W) (i : ℕ)
        → Step false s (record (in_world s (destruct os (s.sockets i) s.process.world).1) {
          sockets = update s.sockets i (destruct os (s.sockets i) s.process.world).0;
        })
    sent :
        (s : Scope W) (i : ℕ) (bytes : List ℕ) (flags : ℕ)
        → Step false s (in_world s (send os (s.sockets i) bytes flags s.process.world).1)
    received :
        (s : Scope W) (i size flags : ℕ) (native : Endian)
        → Step false s (in_world s (recv os native (s.sockets i) size flags s.process.world).1)
    peeked :
        (s : Scope W) (i size : ℕ) (malloc : ℕ → List ℕ) (native : Endian)
        → Step false s (in_world s (peek os malloc native (s.sockets i) size s.process.world).1)

  pub data Reach (start : Scope W) : Bool → Scope W → Type 0 where
    begin : Reach start false start
    next :
        (lost lost' : Bool) (s t : Scope W)
        → Reach start lost s
        → Step lost' s t
        → Reach start (lost' || lost) t

  fd-update :
      (f : ℕ → Socket) (i : ℕ) (x : Socket)
      → (λ j. (update f i x j).m_fd) ≡ update (λ j. (f j).m_fd) i x.m_fd
  fd-update f i x =
      fun_ext
        λ j. elim (Bool-cases (j == i)) [ inl same ↦ rw same refl | inr differ ↦ rw differ refl ]

  fd-both :
      (f : ℕ → Socket) (i j : ℕ) (s t : Socket) (m : ℕ)
      → i ≢ j
      → (m ≡ i → (both f i j (s, t) m).m_fd ≡ s.m_fd)
        × (m ≡ j → (both f i j (s, t) m).m_fd ≡ t.m_fd)
        × (m ≢ i → m ≢ j → (both f i j (s, t) m).m_fd ≡ (f m).m_fd)
  fd-both f i j s t m ne = (
    λ e.
        ap (λ z. z.m_fd)
          (update_ne (update f i s) j t m (λ e'. ne (sym e ∙ e'))
            ∙ ap (update f i s) e
            ∙ update_self f i s),
    λ e. ap (λ z. z.m_fd) (ap (update (update f i s) j t) e ∙ update_self (update f i s) j t),
    λ off off'. ap (λ z. z.m_fd) (update_ne (update f i s) j t m off' ∙ update_ne f i s m off),
  )

  update-same : (f : ℕ → Option ℕ) (i : ℕ) → update f i (f i) ≡ f
  update-same f i = fun_ext λ j. elim (Bool-cases (j == i)) [
    | inl same ↦ rw same (ap f (sym (==→eq j i same)))
    | inr differ ↦ rw differ refl
  ]

  -- A call that opens and closes nothing.
  Held-call :
      {start : ℕ → Bool} {lost : Bool} (s : Scope W) (w : W)
      → Held start lost (now_open s) (fd_of s)
      → ((d : ℕ) → k.is_open w d ≡ now_open s d)
      → Held start lost (k.is_open w) (fd_of s)
  Held-call {lost} s w h same =
      Held-lost h lost (k.is_open w) (λ fd e. same fd ∙ e) (λ e. (e, same))

  -- A constructor that threw may have left a descriptor open that no variable has.
  Held-throw :
      {start : ℕ → Bool} {lost : Bool} (s : Scope W) (hostname : List ℕ) (port : ℕ) (timeout : ℤ)
      → Held start lost (now_open s) (fd_of s)
      → Held start true (k.is_open (construct os hostname port timeout s.process).1.world) (fd_of s)
  Held-throw s hostname port timeout h =
      elim (construct-Opened os k hostname port timeout s.process) [
        | inl (same, fails) ↦ Held-lost h true _ (λ fd e. same fd ∙ e) (λ e. absurd (true≢false e))
        | inr (fd, fresh, only, has) ↦
            Held-lost h true _ (λ d e. only d ∙ still d fd e) (λ e. absurd (true≢false e))
      ]
    where
      still : (d fd : ℕ) → now_open s d ≡ true → update (now_open s) fd true d ≡ true
      still d fd e = elim (Bool-cases (d == fd)) [
        | inl same ↦ rw same refl
        | inr differ ↦ rw differ e
      ]

  Held-destruct :
      {start : ℕ → Bool} {lost : Bool} (s : Scope W) (i : ℕ) (o : Option ℕ)
      → fd_of s i ≡ o
      → Held start lost (now_open s) (fd_of s)
      → Held start lost
          (k.is_open (close_fd os o (s.sockets i) s.process.world).1)
          (update (fd_of s) i (close_fd os o (s.sockets i) s.process.world).0.m_fd)
  Held-destruct {start} {lost} s i none e h =
      subst (Held start lost (now_open s)) (sym (update-same (fd_of s) i)) h
  Held-destruct s i (some fd) e h = Held-close h _ i fd e (k.close_closes fd s.process.world)

  -- Every step keeps the account of the descriptors.
  Step-Held :
      {start : ℕ → Bool} {lost lost' : Bool} {s t : Scope W}
      → Held start lost (now_open s) (fd_of s)
      → Step lost' s t
      → Held start (lost' || lost) (now_open t) (fd_of t)
  unfolding move_construct move_assign destruct
  Step-Held {start} {lost} h (constructed s i hostname port timeout made empty returned) =
      elim (construct-Opened os k hostname port timeout s.process) [
        | inl (same, fails) ↦ absurd (fails made returned)
        | inr (fd, fresh, only, has) ↦
            subst
              (Held start lost (k.is_open (construct os hostname port timeout s.process).1.world))
              (sym (fd-update s.sockets i made ∙ ap (update (fd_of s) i) (has made returned)))
              (Held-fresh h _ i fd empty fresh only)
      ]
  Step-Held h (not_constructed s hostname port timeout fails) = Held-throw s hostname port timeout h
  Step-Held h (move_constructed s i j garbage ne empty) =
      let placed = fd-both s.sockets i j _ _ in
      Held-swap h i j _ ne ((placed i ne).0 refl) ((placed j ne).1 refl ∙ sym empty)
        (λ m. (placed m ne).2)
  Step-Held h (move_assigned s i j ne) =
      let placed = fd-both s.sockets i j _ _ in
      Held-swap h i j _ ne ((placed i ne).0 refl) ((placed j ne).1 refl) (λ m. (placed m ne).2)
  Step-Held {start} {lost} h (destructed s i) =
      subst (Held start lost (k.is_open (destruct os (s.sockets i) s.process.world).1))
        (sym (fd-update s.sockets i (destruct os (s.sockets i) s.process.world).0))
        (Held-destruct s i (fd_of s i) refl h)
  Step-Held h (sent s i bytes flags) =
      Held-call s _ h (send-Keeps os k (s.sockets i) bytes flags s.process.world)
  Step-Held h (received s i size flags native) =
      Held-call s _ h (recv-Keeps os k native (s.sockets i) size flags s.process.world)
  Step-Held h (peeked s i size malloc native) =
      Held-call s _ h (peek-Keeps os k malloc native (s.sockets i) size s.process.world)

  -- In every program over sockets that starts without any, over a system whose `socket` and `close`
  -- alone open and close descriptors: no two variables have the same descriptor, and each that a
  -- variable has is open; where no constructor threw, a descriptor that was not open at the start
  -- is open only while a variable has it.
  pub Reach-Held :
      {start s : Scope W} {lost : Bool}
      → ((i : ℕ) → fd_of start i ≡ none)
      → Reach start lost s
      → Held (now_open start) lost (now_open s) (fd_of s)
  Reach-Held empty begin = record {
    sole = λ i j fd e e'. absurd (none≢some fd (sym (empty i) ∙ e));
    live = λ i fd e. absurd (none≢some fd (sym (empty i) ∙ e));
    kept = λ none_lost fd e. inl e;
  }
  Reach-Held empty (next lost lost' s t r step) = Step-Held (Reach-Held empty r) step

  -- In every program over sockets that starts without any and in which no constructor throws, over
  -- a system whose `socket` and `close` alone open and close descriptors: once all variables are
  -- without a socket, no descriptor is open that was not open at the start.
  pub Reach-closed :
      {start s : Scope W} (fd : ℕ)
      → ((i : ℕ) → fd_of start i ≡ none)
      → Reach start false s
      → ((i : ℕ) → fd_of s i ≡ none)
      → now_open s fd ≡ true
      → now_open start fd ≡ true
  Reach-closed fd empty r empty' e = elim ((Reach-Held empty r).kept refl fd e) [
    | inl before ↦ before
    | inr (i, has) ↦ absurd (none≢some fd (sym (empty' i) ∙ has))
  ]
