-- ===== src/Httpx.antt =====
-- internal/httpx: the bounded read of a response body, and the address of a client without its
-- port. `client.Get` is the argument `get`, and net.SplitHostPort the argument `split_host_port`.
use native.Mathlib.Decide.{dec_le}
use robotsyes.Base.{
  ℕ, ◌+◌, ◌≤◌, Bytes, Bool, false, ◌&&◌, not, Option, none, some, ◌≡◌, ◌↔◌, arith, length, take,
  take_of_length-le, length-take_of_le, ltb, ◌==◌, if◌then◌else◌,
}

-- A response: its status, its body, and whether reading past the body fails.
pub record Response : Type 0 where
  pub status : ℕ
  pub body : Bytes
  pub broken : Bool

pub data FetchError : Type 0 where
  get_failed bad_status read_failed too_large : FetchError

pub data Fetched : Type 0 where
  ok : Bytes → Fetched
  err : FetchError → Fetched

-- `io.ReadAll(io.LimitReader(body, n))`: an error shows only if it comes before `n` bytes.
unfoldable pub read_limited : ℕ → Response → Option Bytes
read_limited n resp =
    if resp.broken && ltb (length resp.body) n then none else some (take n resp.body)

unfoldable pub get_bounded : (Bytes → Option Response) → Bytes → ℕ → Fetched
get_bounded get url max = elim (get url) [
  | none ↦ err get_failed
  | some resp ↦
      if not (resp.status == 200) then err bad_status else elim (read_limited (max + 1) resp) [
        | none ↦ err read_failed
        | some body ↦ if ltb max (length body) then err too_large else ok body
      ]
]

-- Of a response that the server gave, a body is returned exactly if the status is 200 and the body
-- has at most `max` bytes and could be read to its end, and then it is the whole body.
pub get_bounded_ok :
    (get : Bytes → Option Response) (url : Bytes) (max : ℕ) (resp : Response) (b : Bytes)
    → get url ≡ some resp
    → (get_bounded get url max ≡ ok b)
      ↔ ((resp.status ≡ 200) × (resp.broken ≡ false) × (length resp.body ≤ max) × (b ≡ resp.body))
unfolding get_bounded read_limited
get_bounded_ok get url max resp b got = elim (dec_le (length resp.body) max) [
  | yes fits ↦
      let whole = take_of_length-le (max + 1) resp.body (omega arith) in
      (λ h. ground arith, λ h. ground arith)
  | no over ↦
      let cut = length-take_of_le (max + 1) resp.body (omega arith) in
      (λ h. absurd (ground arith), λ h. absurd (over h.2))
]

unfoldable pub remote_ip : (Bytes → Option (Bytes × Bytes)) → Bytes → Bytes
remote_ip split_host_port remote_addr = elim (split_host_port remote_addr) [
  | none ↦ remote_addr
  | some (host, port) ↦ host
]
