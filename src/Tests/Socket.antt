-- ===== src/Tests/Socket.antt =====
-- Sockets of tools/connection/main.cpp over a small operating system.
use qbind.Base.{
  ℕ, zero, suc, ◌+◌, ◌≡◌, ◌≢◌, refl, ap, arith, Bool, true, false, not, ◌&&◌, none, some, [], ◌∷◌,
}
use qbind.Base.Tests.{ltb, ◌==◌, if◌then◌else◌}
use qbind.Base.Int.{pos}
use qbind.Base.Lists.{replicate}
use qbind.Base.Outcome.{Outcome, ok}
use qbind.Ipc.{little}
use qbind.Ipc.Os.{Os, Family, inet, addresses, erange, ◌>>=◌, ◌>>◌}
use qbind.Ipc.Socket.{
  Socket, Process, construct, destruct, local_addresses, gethostname, hostname_to_ips, ips_of,
  ip_of, open_socket, set_options, connect_to, domain_of, is_local, has_colon,
}
use qbind.Ipc.Socket.Kernel.{Kernel}
use qbind.Ipc.Socket.Opening.{Opened, construct-Opened}
use qbind.Ipc.Socket.Descriptors.{Scope, now_open, fd_of, begin, next, constructed, Reach-Held}
use qbind.Ipc.Socket.Account.{Held, update}
use qbind.Ipc.Connection.{Setting, TSocket}

-- Descriptors are given out in order; those given out are open unless they were closed.
record World : Type 0 where
  given : ℕ
  closed : ℕ → Bool

abbrev mark : (ℕ → Bool) → ℕ → Bool → ℕ → Bool
mark f i b d = if d == i then b else f d

-- The only host has one address, everything succeeds, and a peer sends nothing and closes.
abbrev small_os : Os World
small_os = record {
  Addr = Unit {0};
  errno = λ w. 2;
  strerror_r = λ code size w. ((if ltb size 2000 then pos erange else pos 0, 104 ∷ []), w);
  getaddrinfo = λ h w. (addresses ((inet, tt) ∷ []), w);
  inet_ntop = λ f a w. (some (49 ∷ 46 ∷ 50 ∷ []), w);
  inet_pton = λ f ip w. (some 1, w);
  gethostname = λ w. (some (104 ∷ []), w);
  socket =
      λ f w. (some w.given, record { given = w.given + 1; closed = mark w.closed w.given false });
  setsockopt = λ fd o w. (true, w);
  connect = λ fd p w. (true, w);
  close = λ fd w. record w { closed = mark w.closed fd true };
  send = λ fd bs flags w. (some 1, w);
  recv = λ fd size flags w. (some [], w);
  keeps_empty = false;
}

abbrev is_open : World → ℕ → Bool
is_open w d = ltb d w.given && not (w.closed d)

given_next :
    (f : Family) (w t : World) (fd : ℕ)
    → small_os.socket f w ≡ (some fd, t)
    → (is_open w fd ≡ false) × ((d : ℕ) → is_open t d ≡ (if d == fd then true else is_open w d))
given_next f w t fd e =
    let first = ap (λ r. r.0) e in
    let same : w.given ≡ fd = cc in
    let after : record { given = w.given + 1; closed = mark w.closed w.given false } ≡ t =
      ap (λ r. r.1) e in
    rw (← after, ← same) (ground arith, λ d. ground arith)

never_none : (f : Family) (w t : World) → small_os.socket f w ≢ (none, t)
never_none f w t e = let first = ap (λ r. r.0) e in cc

close_one :
    (fd : ℕ) (w : World) (d : ℕ)
    → is_open (small_os.close fd w) d ≡ (if d == fd then false else is_open w d)
close_one fd w d = ground arith

abbrev small_kernel : Kernel small_os
small_kernel = record {
  is_open = is_open;
  socket_opens = given_next;
  socket_fails = λ f w t e. absurd (never_none f w t e);
  close_closes = close_one;
  strerror_r_keeps = λ code size w d. refl;
  getaddrinfo_keeps = λ h w d. refl;
  inet_ntop_keeps = λ f a w d. refl;
  inet_pton_keeps = λ f ip w d. refl;
  gethostname_keeps = λ w d. refl;
  setsockopt_keeps = λ fd o w d. refl;
  connect_keeps = λ fd p w d. refl;
  send_keeps = λ fd bs flags w d. refl;
  recv_keeps = λ fd size flags w d. refl;
}

-- Three descriptors are open, with the address of this host not asked for yet.
abbrev at_first : Process World
at_first = record { world = record { given = 3; closed = λ d. false }; local_ips = none }

abbrev made : Socket
made = record { m_fd = some 3; m_is_unix_domain_socket = true }

abbrev constructs : Outcome Socket × Process World
constructs = construct small_os (104 ∷ []) 5000 (pos 0) at_first

made_first : constructs.0 ≡ ok made
unfolding construct local_addresses gethostname hostname_to_ips ips_of ip_of open_socket set_options
    connect_to domain_of is_local has_colon ◌>>=◌ ◌>>◌
made_first = refl

abbrev refused : TSocket World
refused = record { send = λ b w. ok w; recv = λ n w. ok ([], w); is_unix_domain_socket = false }

abbrev closing : Setting World
closing = record {
  garbage = record { malloc = λ n. replicate n 0; cache = λ y. 0; offset = 0 };
  native = little;
  m_conn = refused;
  m_level = 3;
}

-- One socket is made and destructed.
abbrev no_socket : Socket
no_socket = record { m_fd = none; m_is_unix_domain_socket = false }

abbrev before : Scope World
before = record { process = at_first; sockets = λ i. no_socket }

construct-Opened_example :
    Opened small_os small_kernel at_first.world constructs.1.world constructs.0
construct-Opened_example = construct-Opened small_os small_kernel (104 ∷ []) 5000 (pos 0) at_first

-- The socket is made and destructed.
abbrev behind : Scope World
behind = record { process = constructs.1; sockets = update before.sockets 0 made }

Reach-Held_example :
    Held
      (now_open small_os small_kernel before)
      false
      (now_open small_os small_kernel behind)
      (fd_of small_os small_kernel behind)
Reach-Held_example =
    Reach-Held small_os small_kernel (λ i. refl)
      (next false false before _ begin
        (constructed before 0 (104 ∷ []) 5000 (pos 0) made refl made_first))

abbrev at_end : Scope World
at_end = record {
  process = record constructs.1 { world = (destruct small_os made constructs.1.world).1 };
  sockets = update behind.sockets 0 (destruct small_os made constructs.1.world).0;
}

none_left : (i : ℕ) → fd_of small_os small_kernel at_end i ≡ none
unfolding destruct
none_left zero = refl
none_left (suc i) = ground arith

still_open : now_open small_os small_kernel at_end 1 ≡ true
unfolding destruct construct local_addresses gethostname hostname_to_ips ips_of ip_of open_socket
    set_options connect_to domain_of is_local has_colon ◌>>=◌ ◌>>◌
still_open = refl
