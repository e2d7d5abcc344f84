-- ===== src/Ipc/Socket.antt =====
-- The class Socket of tools/connection/main.cpp, over the calls of the operating system.
pub mod Kernel
pub mod Opening
pub mod Account
pub mod Descriptors
pub mod Errno
pub mod Transport
use qbind.Base.{
  ℕ, zero, suc, ◌+◌, ◌-◌, ◌*◌, ◌/◌, ◌%◌, ◌^◌, Bool, true, false, ◌||◌, ◌&&◌, not, Option, none,
  some, List, [], ◌∷◌, ◌++◌,
}
use qbind.Base.Tests.{ltb, ◌==◌, if◌then◌else◌}
use qbind.Base.Int.{ℤ, pos, negsuc, pos_part}
use qbind.Base.Lists.{length, list_eq, drop}
use qbind.Base.Outcome.{
  Outcome, ok, throw, undefined, terminated, Message, str, num, chars, text, runtime_error,
  bad_alloc,
}
use qbind.Ipc.{Endian, Buffer}
use qbind.Ipc.Os.{
  Io, ◌>>=◌, ◌>>◌, done, raise, Family, unix, inet, inet6, other, SockOpt, keep_alive, no_delay,
  receive_timeout, send_timeout, Peer, peer_inet, peer_inet6, peer_path, Resolved, addresses,
  unresolved, Os, throw_errno, throw_errno_if,
}

-- `static_cast<int>`
abbrev pub as_int : ℕ → ℤ
as_int v = let low = v % 2 ^ 32 in if ltb low (2 ^ 31) then pos low else negsuc (2 ^ 32 - low - 1)

-- MSG_PEEK
abbrev msg_peek : ℕ
msg_peek = 2

-- What `throw_errno` puts before the text: the file and the line stand for themselves.
abbrev pub errno_place : Message
errno_place = str "in tools/connection/main.cpp: " ∷ []

-- The members; `none` is the descriptor -1.
pub record Socket : Type 0 where
  pub m_fd : Option ℕ
  pub m_is_unix_domain_socket : Bool

-- The world, and the `static` addresses of the local host once they are known.
pub record Process (W : Type 0) : Type 0 where
  pub world : W
  pub local_ips : Option (List (List ℕ))

-- `sa_family` as a number.
abbrev family_number : Family → Message
family_number unix = num (pos 1) ∷ []
family_number inet = num (pos 2) ∷ []
family_number inet6 = num (pos 10) ∷ []
family_number (other n) = num (pos n) ∷ []

abbrev pub is_unix : Family → Bool
is_unix unix = true
is_unix f = false

abbrev pub or_throw_errno : {W A : Type 0} → Os W → Option A → Io W A
or_throw_errno os (some a) = done a
or_throw_errno os none = throw_errno os errno_place

module _ {W : Type 0} (os : Os W) where
  -- The `case`s of the loop in `hostname_to_ips`.
  unfoldable pub ip_of : Family → os.Addr → Io W (List ℕ)
  ip_of unix a = raise (runtime_error (str "Unknown address family: " ∷ family_number unix))
  ip_of inet a = (λ w. let (r, t) = os.inet_ntop inet a w in or_throw_errno os r t)
  ip_of inet6 a = (λ w. let (r, t) = os.inet_ntop inet6 a w in or_throw_errno os r t)
  ip_of (other n) a =
      raise (runtime_error (str "Unknown address family: " ∷ family_number (other n)))

  unfoldable pub ips_of : List (Family × os.Addr) → Io W (List (List ℕ))
  ips_of [] = done []
  ips_of ((f, a) ∷ p) = do ip ← ip_of f a; ips ← ips_of p; done (ip ∷ ips)

  abbrev pub not_empty : (hostname : List ℕ) → List (List ℕ) → Io W (List (List ℕ))
  not_empty hostname [] =
      raise (runtime_error (str "Failed to find address for " ∷ chars hostname ∷ []))
  not_empty hostname (ip ∷ ips) = done (ip ∷ ips)

  abbrev pub from_info : (hostname : List ℕ) → Resolved os.Addr → Io W (List (List ℕ))
  from_info hostname (unresolved reason) = raise (runtime_error (chars reason ∷ []))
  from_info hostname (addresses p) = ips_of p >>= λ ips. not_empty hostname ips

  -- `hostname_to_ips(hostname)`
  unfoldable pub hostname_to_ips : (hostname : List ℕ) → Io W (List (List ℕ))
  hostname_to_ips hostname w = let (r, t) = os.getaddrinfo hostname w in from_info hostname r t

  -- `gethostname()`
  unfoldable pub gethostname : Io W (List ℕ)
  gethostname w = let (r, t) = os.gethostname w in or_throw_errno os r t

  -- `static const auto local_ips`, which is made by the first constructor that gets this far.
  abbrev made : Outcome (List (List ℕ)) → Option (List (List ℕ))
  made (ok ips) = some ips
  made (throw e) = none
  made undefined = none
  made terminated = none

  abbrev pub static_or :
      Option (List (List ℕ)) → Io W (List (List ℕ)) → Io (Process W) (List (List ℕ))
  static_or (some ips) init p = (ok ips, p)
  static_or none init p = let (r, w) = init p.world in (r, record { world = w; local_ips = made r })

  unfoldable pub local_addresses : Io (Process W) (List (List ℕ))
  local_addresses p = static_or p.local_ips (gethostname >>= hostname_to_ips) p

  -- `std::find(local_ips.begin(), local_ips.end(), ip) != local_ips.end()`, and `ip.find(':')`.
  unfoldable pub is_local : (ip : List ℕ) → List (List ℕ) → Bool
  unfolding list_eq
  is_local ip [] = false
  is_local ip (own ∷ ips) = list_eq own ip || is_local ip ips

  unfoldable pub has_colon : (ip : List ℕ) → Bool
  has_colon [] = false
  has_colon (c ∷ ip) = (c == 58) || has_colon ip

  unfoldable pub domain_of : (ip : List ℕ) → List (List ℕ) → Family
  domain_of ip local_ips =
      if is_local ip local_ips then unix else if has_colon ip then inet6 else inet

  abbrev pub checked : (W → Bool × W) → Io W (Unit {0})
  checked f w = let (r, t) = f w in throw_errno_if os errno_place (not r) t

  abbrev pub option_if : Bool → (W → Bool × W) → Io W (Unit {0})
  option_if true f = checked f
  option_if false f = done tt

  -- The options, in the order of the source.
  unfoldable pub set_options : (fd : ℕ) → Family → (timeout : ℤ) → Io W (Unit {0})
  set_options fd domain timeout = do
    checked (os.setsockopt fd keep_alive)
    option_if (not (is_unix domain)) (os.setsockopt fd no_delay)
    let tv_sec = as_int (pos_part timeout / 100000)
    let tv_usec = as_int (pos_part timeout % 100000)
    option_if (ltb 0 (pos_part timeout)) (os.setsockopt fd (receive_timeout tv_sec tv_usec))
    option_if (ltb 0 (pos_part timeout)) (os.setsockopt fd (send_timeout tv_sec tv_usec))

  abbrev pub parsed : Message → Option ℕ → Io W (Unit {0})
  parsed invalid none = throw_errno os errno_place
  parsed invalid (some zero) = raise (runtime_error invalid)
  parsed invalid (some (suc rc)) = done tt

  -- The `switch` that connects.
  unfoldable pub connect_to : (fd : ℕ) → Family → (ip : List ℕ) (port : ℕ) → Io W (Unit {0})
  connect_to fd inet ip port = do
    (λ w. let (rc, t) = os.inet_pton inet ip w in parsed (text "Invalid IPv4 address") rc t)
    checked (os.connect fd (peer_inet ip port))
  connect_to fd inet6 ip port = do
    (λ w. let (rc, t) = os.inet_pton inet6 ip w in parsed (text "Invalid IPv6 address") rc t)
    checked (os.connect fd (peer_inet6 ip port))
  connect_to fd unix ip port = checked (os.connect fd (peer_path port))
  connect_to fd (other n) ip port =
      raise (runtime_error (str "Unknown address family: " ∷ family_number (other n)))

  abbrev pub first_ip : List (List ℕ) → Outcome (List ℕ)
  first_ip [] = undefined
  first_ip (ip ∷ ips) = ok ip

  -- `int fd = socket(domain, SOCK_STREAM, 0);` and what follows.
  unfoldable pub open_socket : Family → (ip : List ℕ) (port : ℕ) (timeout : ℤ) → Io W Socket
  open_socket domain ip port timeout = do
    fd ← (λ w. let (r, t) = os.socket domain w in or_throw_errno os r t)
    set_options fd domain timeout
    connect_to fd domain ip port
    done (record { m_fd = some fd; m_is_unix_domain_socket = is_unix domain })

  abbrev pub in_world : {A : Type 0} → Io W A → Io (Process W) A
  in_world f p = let (r, w) = f p.world in (r, record p { world = w })

  -- `Socket(hostname, port, timeout)`
  unfoldable pub construct : (hostname : List ℕ) (port : ℕ) (timeout : ℤ) → Io (Process W) Socket
  construct hostname port timeout = do
    ips ← local_addresses
    ip ← in_world (hostname_to_ips hostname >>= λ found w. (first_ip found, w))
    in_world (open_socket (domain_of ip ips) ip port timeout)

  -- `Socket(Socket&& other)`: the new socket and what is left of `other`. The other member is not
  -- set, and holds `garbage`.
  unfoldable pub move_construct : (garbage : Bool) → (other : Socket) → Socket × Socket
  move_construct garbage s =
      (record { m_fd = s.m_fd; m_is_unix_domain_socket = garbage }, record s { m_fd = none })

  -- `operator=(Socket&& other)` on two sockets: both afterwards.
  unfoldable pub move_assign : (this other : Socket) → Socket × Socket
  move_assign s t = (record s { m_fd = t.m_fd }, record t { m_fd = s.m_fd })

  -- The destructor: `close` on a descriptor that is not -1.
  abbrev pub close_fd : Option ℕ → Socket → W → Socket × W
  close_fd none s w = (s, w)
  close_fd (some fd) s w = (record s { m_fd = none }, os.close fd w)

  unfoldable pub destruct : Socket → W → Socket × W
  destruct s w = close_fd s.m_fd s w

  -- `send(ptr, size, flags)`: how many bytes were sent
  unfoldable pub send : Socket → List ℕ → (flags : ℕ) → Io W ℕ
  send s bytes flags w = let (r, t) = os.send s.m_fd bytes flags w in or_throw_errno os r t

  -- `peek(size)`: a buffer of `size` bytes, however few were received into the memory `malloc`
  unfoldable pub peek : (malloc : ℕ → List ℕ) → Endian → Socket → (size : ℕ) → Io W Buffer
  peek malloc native s size = do
    bs ← (λ w. let (r, t) = os.recv s.m_fd size msg_peek w in or_throw_errno os r t)
    done (record { bytes = bs ++ drop (length bs) (malloc size); endianness = native })

  -- `recv(size, flags)`
  unfoldable pub recv : Endian → Socket → (size flags : ℕ) → Io W Buffer
  recv native s size flags = do
    bs ← (λ w. let (r, t) = os.recv s.m_fd size flags w in or_throw_errno os r t)
    if ltb (length bs) size && (length bs == 0) && not os.keeps_empty
        then raise bad_alloc
        else done (record { bytes = bs; endianness = native })
