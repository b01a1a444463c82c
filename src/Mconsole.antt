-- ===== src/Mconsole.antt =====
-- tools/internal/mconsole/mconsole.go: a request to a guest's management console, on a little-endian
-- host. The socket's results are arguments; `none` is a nil error.
pub mod Space
pub mod Replies
pub mod Bounds
mod Tests
use vkage.Base.{
  ℕ, ◌+◌, ◌-◌, ◌*◌, ◌/◌, ◌%◌, min, Bool, true, false, ◌&&◌, List, [], ◌∷◌, ◌++◌, Option, none, some,
  Bytes, length, take, drop, ◌==◌, ltb, leb, if◌then◌else◌,
}
use vkage.Mconsole.Space.{trim_space}

abbrev pub max_data : ℕ
max_data = 512

abbrev pub header_size : ℕ
header_size = 12

abbrev pub max_reply : ℕ
max_reply = 1048576

-- `binary.NativeEndian.PutUint32`.
abbrev pub put_uint32 : ℕ → Bytes
put_uint32 n = n % 256 ∷ n / 256 % 256 ∷ n / 65536 % 256 ∷ n / 16777216 % 256 ∷ []

-- `binary.NativeEndian.Uint32`, of a text that has the bytes.
unfoldable pub uint32 : Bytes → ℕ
uint32 (a ∷ b ∷ c ∷ d ∷ s) = a + b * 256 + c * 65536 + d * 16777216
uint32 _ = 0

-- What is sent for a command.
unfoldable pub request_bytes : Bytes → Bytes
request_bytes cmd = put_uint32 0xcafebabe ++ (put_uint32 2 ++ (put_uint32 (length cmd) ++ cmd))

is_empty : Bytes → Bool
is_empty [] = true
is_empty (_ ∷ _) = false

-- `bytes.TrimRight` of NULs.
pub trim_nul : Bytes → Bytes
unfolding is_empty
trim_nul [] = []
trim_nul (b ∷ s) = let rest = trim_nul s in if is_empty rest && b == 0 then [] else b ∷ rest

-- A reply's error, whether more follow, and its text.
pub record Reply : Type 0 where
  pub error : ℕ
  pub more : ℕ
  pub text : Bytes

-- What is read of the buffer's bytes; `none` is a short reply.
pub parse_reply : Bytes → Option Reply
unfolding trim_nul uint32
parse_reply buf =
    let end = min (header_size + uint32 (drop 8 buf)) (length buf) in
    if ltb (length buf) header_size
    then none
    else some (record {
      error = uint32 buf;
      more = uint32 (drop 4 buf);
      text = trim_nul (take (end - header_size) (drop header_size buf));
    })

-- A datagram as it is read into the buffer: what does not fit is lost.
unfoldable pub read_reply : Bytes → Option Reply
unfolding parse_reply
read_reply datagram = parse_reply (take (header_size + max_data) datagram)

-- What a read of the socket gives.
pub data Read (E : Type 0) : Type 0 where
  fails : E → Read E
  datagram : Bytes → Read E

-- What `Request` returns. `refused` has the guest's words, without the space around them. `waiting` is no result: the reads given end before the last reply.
pub data Answer (E : Type 0) : Type 0 where
  waiting command_too_long short_reply reply_too_long : Answer E
  io_error : E → Answer E
  refused answered : Bytes → Answer E

module _ {E : Type 0} where
  finished : ℕ → Bytes → Answer E
  finished error out = if error == 0 then answered out else refused (trim_space out)

  -- A round of the loop behind its read; `again` is the next round.
  round : Bool → ℕ → Bytes → Option Reply → (ℕ → Bytes → Answer E) → Answer E
  unfolding finished
  round first error out none again = short_reply
  round first error out (some r) again =
      let error' = if first then r.error else error in
      let out' = out ++ r.text in
      if ltb max_reply (length out')
      then reply_too_long
      else if r.more == 0
      then finished error' out'
      else again error' out'

  pub replies : Bool → ℕ → Bytes → List (Read E) → Answer E
  unfolding round read_reply
  replies first error out [] = waiting
  replies first error out (fails e ∷ reads) = io_error e
  replies first error out (datagram d ∷ reads) =
      round first error out (read_reply d) (λ error' out'. replies false error' out' reads)

  connected : Option E → Option E → List (Read E) → Answer E
  unfolding replies
  connected (some e) written reads = io_error e
  connected none (some e) reads = io_error e
  connected none none reads = replies true 0 [] reads

  -- `dialled` is the error of the connection or of its deadline, `written` that of the write of
  -- `request_bytes cmd`.
  unfoldable pub request : Bytes → Option E → Option E → List (Read E) → Answer E
  unfolding connected
  request cmd dialled written reads =
      if leb max_data (length cmd) then command_too_long else connected dialled written reads
