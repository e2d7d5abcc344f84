-- ===== src/Ipc/Socket/Kernel.antt =====
-- Which descriptors are open around the calls of the class Socket, tools/connection/main.cpp.
use qbind.Base.{
  ℕ, zero, suc, ◌≡◌, refl, ◌∙◌, not, ◌*◌, ◌%◌, ◌^◌, Bool, true, false, Option, none, some, List, [],
  ◌∷◌,
}
use qbind.Base.Tests.{◌==◌, if◌then◌else◌}
use qbind.Base.Int.{ℤ}
use qbind.Base.Outcome.{Outcome, ok, throw, undefined, terminated, Message}
use qbind.Ipc.Os.{
  Io, continue, ◌>>=◌, ◌>>◌, Family, unix, inet, inet6, other, SockOpt, Peer, Resolved, addresses,
  unresolved, Os, Reply, told, bad_errno, bad_size, nothing, unknown, reply, on_reply, retry,
  throw_errno, throw_errno_if,
}
use qbind.Ipc.Socket.{
  Socket, or_throw_errno, ip_of, ips_of, not_empty, from_info, checked, option_if, parsed,
  errno_place, hostname_to_ips, gethostname, set_options, connect_to, send, recv, peek,
}
use qbind.Ipc.{Endian}

-- What POSIX says about descriptors: `socket` opens one that was not open, `close` closes the one it
-- is given, and no other call opens or closes any.
pub record Kernel {W : Type 0} (os : Os W) : Type 0 where
  pub is_open : W → ℕ → Bool
  pub socket_opens :
      (f : Family) (w t : W) (fd : ℕ)
      → os.socket f w ≡ (some fd, t)
      → (is_open w fd ≡ false) × ((d : ℕ) → is_open t d ≡ (if d == fd then true else is_open w d))
  pub socket_fails :
      (f : Family) (w t : W) → os.socket f w ≡ (none, t) → (d : ℕ) → is_open t d ≡ is_open w d
  pub close_closes :
      (fd : ℕ) (w : W) (d : ℕ)
      → is_open (os.close fd w) d ≡ (if d == fd then false else is_open w d)
  pub strerror_r_keeps :
      (code size : ℕ) (w : W) (d : ℕ) → is_open (os.strerror_r code size w).1 d ≡ is_open w d
  pub getaddrinfo_keeps :
      (h : List ℕ) (w : W) (d : ℕ) → is_open (os.getaddrinfo h w).1 d ≡ is_open w d
  pub inet_ntop_keeps :
      (f : Family) (a : os.Addr) (w : W) (d : ℕ) → is_open (os.inet_ntop f a w).1 d ≡ is_open w d
  pub inet_pton_keeps :
      (f : Family) (ip : List ℕ) (w : W) (d : ℕ) → is_open (os.inet_pton f ip w).1 d ≡ is_open w d
  pub gethostname_keeps : (w : W) (d : ℕ) → is_open (os.gethostname w).1 d ≡ is_open w d
  pub setsockopt_keeps :
      (fd : ℕ) (o : SockOpt) (w : W) (d : ℕ) → is_open (os.setsockopt fd o w).1 d ≡ is_open w d
  pub connect_keeps :
      (fd : ℕ) (p : Peer) (w : W) (d : ℕ) → is_open (os.connect fd p w).1 d ≡ is_open w d
  pub send_keeps :
      (fd : Option ℕ) (bs : List ℕ) (flags : ℕ) (w : W) (d : ℕ)
      → is_open (os.send fd bs flags w).1 d ≡ is_open w d
  pub recv_keeps :
      (fd : Option ℕ) (size flags : ℕ) (w : W) (d : ℕ)
      → is_open (os.recv fd size flags w).1 d ≡ is_open w d

module _ {W : Type 0} (os : Os W) (k : Kernel os) where
  -- A call that opens and closes nothing, however it ends.
  abbrev pub Keeps : {A : Type 0} → Io W A → Type 0
  Keeps call = (w : W) (d : ℕ) → k.is_open (call w).1 d ≡ k.is_open w d

  pub continue-Keeps :
      {A B : Type 0} (next : A → Io W B) (r : Outcome A × W) (w : W) (d : ℕ)
      → ((a : A) → Keeps (next a))
      → k.is_open r.1 d ≡ k.is_open w d
      → k.is_open (continue next r).1 d ≡ k.is_open w d
  continue-Keeps next (ok a, t) w d keeps h = keeps a t d ∙ h
  continue-Keeps next (throw e, t) w d keeps h = h
  continue-Keeps next (undefined, t) w d keeps h = h
  continue-Keeps next (terminated, t) w d keeps h = h

  pub >>=-Keeps :
      {A B : Type 0} (call : Io W A) (next : A → Io W B)
      → Keeps call
      → ((a : A) → Keeps (next a))
      → Keeps (call >>= next)
  unfolding ◌>>=◌
  >>=-Keeps call next h keeps w d = continue-Keeps next (call w) w d keeps (h w d)

  pub on_reply-Keeps :
      {A : Type 0} (r : Reply) (code : ℕ) (ss : Message) (s : List ℕ) (w : W)
      (bigger same : Outcome A × W) (d : ℕ)
      → k.is_open bigger.1 d ≡ k.is_open w d
      → k.is_open same.1 d ≡ k.is_open w d
      → k.is_open (on_reply os r code ss s w bigger same).1 d ≡ k.is_open w d
  on_reply-Keeps told code ss s w bigger same d h h' = refl
  on_reply-Keeps bad_errno code ss s w bigger same d h h' = refl
  on_reply-Keeps bad_size code ss s w bigger same d h h' = h
  on_reply-Keeps nothing code ss s w bigger same d h h' = h'
  on_reply-Keeps (unknown rc) code ss s w bigger same d h h' = refl

  pub >>-Keeps :
      {B : Type 0} (call : Io W (Unit {0})) (next : Io W B)
      → Keeps call
      → Keeps next
      → Keeps (call >> next)
  unfolding ◌>>◌
  >>-Keeps call next h keeps = >>=-Keeps call (λ r. next) h (λ r. keeps)

  retry-Keeps :
      (A : Type 0) (fuel code : ℕ) (ss : Message) (size : ℕ) (r : (ℤ × List ℕ) × W) (d : ℕ)
      → k.is_open (retry os {A = A} fuel code ss size r).1 d ≡ k.is_open r.1 d
  unfolding retry
  retry-Keeps A zero code ss size ((rc, s), w) d = refl
  retry-Keeps A (suc fuel) code ss size ((rc, s), w) d =
      let twice = size * 2 % 2 ^ 64 in
      on_reply-Keeps (reply rc (os.errno w)) code ss s w _ _ d
        (retry-Keeps A fuel code ss twice (os.strerror_r code twice w) d
          ∙ k.strerror_r_keeps code twice w d)
        (retry-Keeps A fuel code ss size (os.strerror_r code size w) d
          ∙ k.strerror_r_keeps code size w d)

  pub throw_errno-Keeps :
      (A : Type 0) (errno_place : Message) → Keeps (throw_errno os {A = A} errno_place)
  unfolding throw_errno
  throw_errno-Keeps A errno_place w d =
      retry-Keeps A 64 (os.errno w) errno_place 1024 (os.strerror_r (os.errno w) 1024 w) d
      ∙ k.strerror_r_keeps (os.errno w) 1024 w d

  pub or_throw_errno-Keeps : (A : Type 0) (r : Option A) → Keeps (or_throw_errno os r)
  or_throw_errno-Keeps A (some a) w d = refl
  or_throw_errno-Keeps A none w d = throw_errno-Keeps A _ w d

  ip_of-Keeps : (f : Family) (a : os.Addr) → Keeps (ip_of os f a)
  unfolding ip_of
  ip_of-Keeps unix a w d = refl
  ip_of-Keeps inet a w d =
      or_throw_errno-Keeps (List ℕ) (os.inet_ntop inet a w).0 (os.inet_ntop inet a w).1 d
      ∙ k.inet_ntop_keeps inet a w d
  ip_of-Keeps inet6 a w d =
      or_throw_errno-Keeps (List ℕ) (os.inet_ntop inet6 a w).0 (os.inet_ntop inet6 a w).1 d
      ∙ k.inet_ntop_keeps inet6 a w d
  ip_of-Keeps (other n) a w d = refl

  ips_of-Keeps : (p : List (Family × os.Addr)) → Keeps (ips_of os p)
  unfolding ips_of
  ips_of-Keeps [] w d = refl
  ips_of-Keeps ((f, a) ∷ p) w d =
      >>=-Keeps (ip_of os f a) _ (ip_of-Keeps f a)
        (λ ip. >>=-Keeps (ips_of os p) _ (ips_of-Keeps p) (λ ips w d. refl)) w d

  from_info-Keeps : (h : List ℕ) (r : Resolved os.Addr) → Keeps (from_info os h r)
  from_info-Keeps h (unresolved reason) w d = refl
  from_info-Keeps h (addresses p) w d = >>=-Keeps (ips_of os p) _ (ips_of-Keeps p) checked w d
    where
      checked : (ips : List (List ℕ)) → Keeps (not_empty os h ips)
      checked [] w d = refl
      checked (ip ∷ ips) w d = refl

  pub hostname_to_ips-Keeps : (h : List ℕ) → Keeps (hostname_to_ips os h)
  unfolding hostname_to_ips
  hostname_to_ips-Keeps h w d =
      from_info-Keeps h (os.getaddrinfo h w).0 (os.getaddrinfo h w).1 d ∙ k.getaddrinfo_keeps h w d

  pub gethostname-Keeps : Keeps (gethostname os)
  unfolding gethostname
  gethostname-Keeps w d =
      or_throw_errno-Keeps (List ℕ) (os.gethostname w).0 (os.gethostname w).1 d
      ∙ k.gethostname_keeps w d

  checked-Keeps :
      (f : W → Bool × W)
      → ((w : W) (d : ℕ) → k.is_open (f w).1 d ≡ k.is_open w d)
      → Keeps (checked os f)
  checked-Keeps f h w d = ended (f w).0 (f w).1 d ∙ h w d
    where
      ended : (b : Bool) → Keeps (throw_errno_if os errno_place (not b))
      ended true w d = refl
      ended false w d = throw_errno-Keeps (Unit {0}) _ w d

  option_if-Keeps :
      (b : Bool) (f : W → Bool × W)
      → ((w : W) (d : ℕ) → k.is_open (f w).1 d ≡ k.is_open w d)
      → Keeps (option_if os b f)
  option_if-Keeps true f h w d = checked-Keeps f h w d
  option_if-Keeps false f h w d = refl

  pub set_options-Keeps : (fd : ℕ) (f : Family) (timeout : ℤ) → Keeps (set_options os fd f timeout)
  unfolding set_options
  set_options-Keeps fd f timeout = >>-Keeps _ _ (checked-Keeps _ (k.setsockopt_keeps fd _)) (
      >>-Keeps _ _ (option_if-Keeps _ _ (k.setsockopt_keeps fd _)) (
        >>-Keeps _ _ (option_if-Keeps _ _ (k.setsockopt_keeps fd _))
          (option_if-Keeps _ _ (k.setsockopt_keeps fd _))))

  parsed-Keeps : (invalid : Message) (rc : Option ℕ) → Keeps (parsed os invalid rc)
  parsed-Keeps invalid none w d = throw_errno-Keeps (Unit {0}) errno_place w d
  parsed-Keeps invalid (some zero) w d = refl
  parsed-Keeps invalid (some (suc rc)) w d = refl

  pub connect_to-Keeps :
      (fd : ℕ) (f : Family) (ip : List ℕ) (port : ℕ) → Keeps (connect_to os fd f ip port)
  unfolding connect_to
  connect_to-Keeps fd unix ip port = checked-Keeps _ (k.connect_keeps fd _)
  connect_to-Keeps fd inet ip port =
      >>-Keeps _ _
        (λ w d.
          parsed-Keeps _ (os.inet_pton inet ip w).0 (os.inet_pton inet ip w).1 d
          ∙ k.inet_pton_keeps inet ip w d)
        (checked-Keeps _ (k.connect_keeps fd _))
  connect_to-Keeps fd inet6 ip port =
      >>-Keeps _ _
        (λ w d.
          parsed-Keeps _ (os.inet_pton inet6 ip w).0 (os.inet_pton inet6 ip w).1 d
          ∙ k.inet_pton_keeps inet6 ip w d)
        (checked-Keeps _ (k.connect_keeps fd _))
  connect_to-Keeps fd (other n) ip port = λ w d. refl

  pub send-Keeps : (s : Socket) (bs : List ℕ) (flags : ℕ) → Keeps (send os s bs flags)
  unfolding send
  send-Keeps s bs flags w d =
      let (r, t) = os.send s.m_fd bs flags w in
      or_throw_errno-Keeps ℕ r t d ∙ k.send_keeps s.m_fd bs flags w d

  received-Keeps :
      (s : Socket) (size flags : ℕ)
      → Keeps
          (λ w. or_throw_errno os (os.recv s.m_fd size flags w).0 (os.recv s.m_fd size flags w).1)
  received-Keeps s size flags w d =
      let (r, t) = os.recv s.m_fd size flags w in
      or_throw_errno-Keeps (List ℕ) r t d ∙ k.recv_keeps s.m_fd size flags w d

  either-Keeps :
      {A : Type 0} (b : Bool) (f g : Io W A) → Keeps f → Keeps g → Keeps (if b then f else g)
  either-Keeps true f g h h' = h
  either-Keeps false f g h h' = h'

  pub recv-Keeps : (e : Endian) (s : Socket) (size flags : ℕ) → Keeps (recv os e s size flags)
  unfolding recv
  recv-Keeps e s size flags =
      >>=-Keeps _ _ (received-Keeps s size flags)
        (λ bs. either-Keeps _ _ _ (λ w d. refl) (λ w d. refl))

  pub peek-Keeps :
      (malloc : ℕ → List ℕ) (e : Endian) (s : Socket) (size : ℕ) → Keeps (peek os malloc e s size)
  unfolding peek
  peek-Keeps malloc e s size = >>=-Keeps _ _ (received-Keeps s size _) (λ bs w d. refl)
