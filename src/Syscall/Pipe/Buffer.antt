-- ===== src/Syscall/Pipe/Buffer.antt =====
-- The buffer of a pipe: the loops and copies of KernelPipeRead and KernelPipeWrite.
use yalnix_implementation.Base.{
  ℕ, zero, suc, ◌+◌, ◌-◌, ltb, if◌then◌else◌, none, some, List, ◌++◌, get_elem?, set, take, drop,
  replicate, length,
}

-- `for (i = 0; i < plen - len; i++) buf[i] = buf[i + len]`, from `i` on; a read outside stops it
unfoldable pub shift_loop : ℕ → ℕ → ℕ → List ℕ → List ℕ
shift_loop zero i len buf = buf
shift_loop (suc n) i len buf = elim (get_elem? buf (i + len)) [
  | none ↦ buf
  | some b ↦ shift_loop n (suc i) len (set buf i b)
]

-- `memset(buf, 0, n)`
unfoldable pub clear_front : ℕ → List ℕ → List ℕ
clear_front n buf = replicate n 0 ++ drop n buf

-- the buffer behind a read of `len` bytes of `plen`
unfoldable pub remove_front : ℕ → ℕ → List ℕ → List ℕ
unfolding shift_loop clear_front
remove_front len plen buf =
    if ltb len plen then shift_loop (plen - len) 0 len buf else clear_front plen buf

-- `memcpy(buf + plen, bytes, n)`
unfoldable pub append_bytes : ℕ → List ℕ → List ℕ → List ℕ
append_bytes plen bytes buf = take plen buf ++ (bytes ++ drop (plen + length bytes) buf)
