-- ===== src/Socket.antt =====
-- src/socket.c: the size of a socket's buffer, and the loop that sends an answer. `setsockopt` and
-- `send` are parameters.
pub mod Build
pub mod Buffer
pub mod Sent
use flowstatd.Base.{
  ℕ, zero, suc, ◌+◌, ◌-◌, ◌*◌, ltb, ◌==◌, if◌then◌else◌, true, false, List, [], ◌++◌, drop, length,
  Option, none, some, Run, done, out_of_fuel, ℤ, pos, negsuc,
}

-- `setsockopt`: success, `ENOBUFS`, or another error.
pub data SetResult : Type 0 where
  accepted : SetResult
  no_buffers : SetResult
  failed : SetResult

abbrev pub megabyte : ℕ
megabyte = 1024 * 1024

-- The next size to try, above 4096.
unfoldable pub smaller : ℕ → ℕ
smaller n = if ltb megabyte n then n - megabyte else n - 2048

-- `bigsockbuf`, in the loop at the size `n`.
unfoldable pub bigsockbuf : ℕ → (ℕ → SetResult) → ℕ → Run ℤ
bigsockbuf zero setsockopt n = out_of_fuel
bigsockbuf (suc fuel) setsockopt n = elim (ltb 4096 n) [
  | false ↦ done (pos 0)
  | true ↦ elim (setsockopt n) [
    | accepted ↦ done (pos n)
    | failed ↦ done (negsuc 0)
    | no_buffers ↦ bigsockbuf fuel setsockopt (smaller n)
  ]
]

-- How `SendBufToSock` ends: at the end of the loop, or in `Diep`.
pub data Sending : Type 0 where
  sent : Sending
  died : Sending

-- `SendBufToSock`, in the loop at `pos`; `send` gets the place and the number of the bytes left, and
-- returns the number it took, or `none` for an error. The answer holds the place that was reached.
unfoldable pub send_buf_to_sock : ℕ → (ℕ → ℕ → Option ℕ) → ℕ → ℕ → Run (Sending × ℕ)
send_buf_to_sock zero send len p = out_of_fuel
send_buf_to_sock (suc fuel) send len p = elim (send p (len - p)) [
  | none ↦ done (died, p)
  | some zero ↦ done (sent, p)
  | some (suc n) ↦ send_buf_to_sock fuel send len (p + suc n)
]
