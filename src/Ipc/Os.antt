-- ===== src/Ipc/Os.antt =====
-- The calls of the operating system that tools/connection/main.cpp makes, as a parameter over the
-- state of the world, and `throw_errno`.
use qbind.Base.{ℕ, zero, suc, ◌*◌, ◌%◌, ◌^◌, Bool, true, false, Option, List, [], ◌∷◌, ◌++◌}
use qbind.Base.Tests.{if◌then◌else◌}
use qbind.Base.Int.{ℤ, pos, negsuc, eq_ℤ}
use qbind.Base.Outcome.{
  Outcome, ok, throw, undefined, terminated, Exception, system_error, Message, str, chars,
}

-- A call that changes a state whether it returns or throws.
abbrev pub Io : Type 0 → Type 0 → Type 0
Io S A = S → Outcome A × S

module _ {S A B : Type 0} where
  abbrev pub continue : (A → Io S B) → Outcome A × S → Outcome B × S
  continue next (ok a, s) = next a s
  continue next (throw e, s) = (throw e, s)
  continue next (undefined, s) = (undefined, s)
  continue next (terminated, s) = (terminated, s)

infixl 5 ◌>>=◌ ◌>>◌
unfoldable pub ◌>>=◌ : {S A B : Type 0} → Io S A → (A → Io S B) → Io S B
call >>= next = λ s. continue next (call s)

unfoldable pub ◌>>◌ : {S B : Type 0} → Io S (Unit {0}) → Io S B → Io S B
call >> next = call >>= λ r. next

abbrev pub done : {S A : Type 0} → A → Io S A
done a s = (ok a, s)

abbrev pub raise : {S A : Type 0} → Exception → Io S A
raise e s = (throw e, s)

-- The address families that the code knows, and any other.
pub data Family : Type 0 where
  unix : Family
  inet : Family
  inet6 : Family
  other : ℕ → Family

-- The options that are set on a socket; a timeout has seconds and microseconds.
pub data SockOpt : Type 0 where
  keep_alive : SockOpt
  no_delay : SockOpt
  receive_timeout : (tv_sec tv_usec : ℤ) → SockOpt
  send_timeout : (tv_sec tv_usec : ℤ) → SockOpt

-- Where a socket connects to: an address and a port, or the path "/tmp/kx." with a number behind it.
pub data Peer : Type 0 where
  peer_inet : (ip : List ℕ) (port : ℕ) → Peer
  peer_inet6 : (ip : List ℕ) (port : ℕ) → Peer
  peer_path : (port : ℕ) → Peer

-- What `getaddrinfo` answers: the addresses with their families, or the text of `gai_strerror`.
pub data Resolved (Addr : Type 0) : Type 0 where
  addresses : List (Family × Addr) → Resolved Addr
  unresolved : List ℕ → Resolved Addr

-- The calls. Text is its characters; a descriptor of -1 is `none`. `none`, or `false`, stands for a null pointer or a result of -1.
pub record Os (W : Type 0) : Type 1 where
  pub Addr : Type 0
  pub errno : W → ℕ
  pub strerror_r : (errnum size : ℕ) → W → (ℤ × List ℕ) × W
  pub getaddrinfo : (hostname : List ℕ) → W → Resolved Addr × W
  pub inet_ntop : Family → Addr → W → Option (List ℕ) × W
  pub inet_pton : Family → (ip : List ℕ) → W → Option ℕ × W
  pub gethostname : W → Option (List ℕ) × W
  pub socket : Family → W → Option ℕ × W
  pub setsockopt : (fd : ℕ) → SockOpt → W → Bool × W
  pub connect : (fd : ℕ) → Peer → W → Bool × W
  pub close : (fd : ℕ) → W → W
  pub send : (fd : Option ℕ) → List ℕ → (flags : ℕ) → W → Option ℕ × W
  pub recv : (fd : Option ℕ) → (size flags : ℕ) → W → Option (List ℕ) × W
  -- whether `realloc(buf, 0)` returns a pointer
  pub keeps_empty : Bool

-- EINVAL and ERANGE.
abbrev pub einval : ℕ
einval = 22

abbrev pub erange : ℕ
erange = 34

-- What the loop of `throw_errno` does on a result of `strerror_r`; `rc == -1` stands for `errno`.
pub data Reply : Type 0 where
  told bad_errno bad_size nothing : Reply
  unknown : (rc : ℤ) → Reply

abbrev pub errno_if : ℤ → (errno : ℕ) → ℤ
errno_if rc errno = if eq_ℤ rc (negsuc 0) then pos errno else rc

abbrev pub reply : (rc : ℤ) (errno : ℕ) → Reply
reply rc errno =
    if eq_ℤ rc (pos 0)
    then told
    else if eq_ℤ (errno_if rc errno) (pos einval)
    then bad_errno
    else if eq_ℤ (errno_if rc errno) (pos erange)
    then bad_size
    else if eq_ℤ (errno_if rc errno) (pos 0)
    then nothing
    else unknown (errno_if rc errno)

module _ {W : Type 0} (os : Os W) {A : Type 0} where
  -- The exception, or the next round: with twice the size, or with the same.
  abbrev pub on_reply :
      Reply
      → (code : ℕ) (ss : Message) (s : List ℕ) (w : W) → (bigger same : Outcome A × W)
      → Outcome A × W
  on_reply told code ss s w bigger same =
      (throw (system_error (pos code) (ss ++ (chars s ∷ []))), w)
  on_reply bad_errno code ss s w bigger same = (
    throw (
        system_error (pos code)
          (ss ++ (str "Failed to get error. Bad errno given to strerror_r." ∷ []))),
    w,
  )
  on_reply bad_size code ss s w bigger same = bigger
  on_reply nothing code ss s w bigger same = same
  on_reply (unknown rc) code ss s w bigger same = (
    throw (
        system_error rc
          (ss ++ (str ": Failed to get error. Unknown strerror_r return code." ∷ []))),
    w,
  )

  -- The loop, with the buffer at `size` and what `strerror_r` has done; where `fuel` runs out it has
  -- not ended.
  unfoldable pub retry :
      (fuel code : ℕ) (ss : Message) (size : ℕ) → (ℤ × List ℕ) × W → Outcome A × W
  retry zero code ss size ((rc, s), w) = (undefined, w)
  retry (suc fuel) code ss size ((rc, s), w) =
      let twice = size * 2 % 2 ^ 64 in
      on_reply (reply rc (os.errno w)) code ss s w
        (retry fuel code ss twice (os.strerror_r code twice w))
        (retry fuel code ss size (os.strerror_r code size w))

  -- `throw_errno(file, line, function)`; `place` is what it puts before the text of the error. The
  -- buffer starts at 1024 bytes, and a size that doubles 54 times wraps to 0.
  unfoldable pub throw_errno : (place : Message) → Io W A
  throw_errno place w =
      let code = os.errno w in retry 64 code place 1024 (os.strerror_r code 1024 w)

-- `THROW_ERRNO_IF(x)`
abbrev pub throw_errno_if : {W : Type 0} → Os W → Message → Bool → Io W (Unit {0})
throw_errno_if os place true = throw_errno os place
throw_errno_if os place false = done tt
