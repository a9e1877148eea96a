-- ===== src/Stratum/Lines.antt =====
-- The lines that a pool sends, as main/stratum_minimal.c takes them from the transport:
-- `rx_buffer_reserve`, `receive_jsonrpc_line` and `consume_jsonrpc_line`.
use m45_gamma_firmware.Base.{
  ℕ, zero, suc, ◌+◌, Bool, Option, none, some, List, [], ◌∷◌, ◌++◌, ltb, leb, ◌==◌, if◌then◌else◌,
  length, drop,
}
pub mod Stream

abbrev pub buffer_size : ℕ
buffer_size = 1024

abbrev pub max_line_size : ℕ
max_line_size = 16384

-- `g_rx_buffer` up to `g_rx_buffer_len`, and `g_rx_buffer_size`, of one pool. The zero character at
-- the end of a line is not shown: it replaces a byte that is consumed with the line.
pub record RxBuffer : Type 0 where
  pub content : List ℕ
  pub size : ℕ

-- `while (new_size < needed)`: 17 rounds are enough for the longest line.
pub grow : ℕ → ℕ → ℕ → ℕ
grow zero new_size needed = new_size
grow (suc fuel) new_size needed =
    let grown = grow fuel (new_size + buffer_size) needed in
    if ltb new_size needed then grown else new_size

-- The buffer with room for `needed` bytes, or `none` where the function fails; `allocated` says
-- whether `realloc` succeeds.
pub rx_buffer_reserve : RxBuffer → ℕ → Bool → Option RxBuffer
rx_buffer_reserve b needed allocated =
    if ltb (max_line_size + 1) needed
    then none
    else if leb needed b.size
    then some b
    else let start = if b.size == 0 then buffer_size else b.size in
      if allocated then some (record b { size = grow 17 start needed }) else none

-- What a call of `esp_transport_read` gives: bytes, and whether `realloc` has memory for them;
-- nothing, and whether the connection is to be left or has been idle for too long; or an error.
pub data Read : Type 0 where
  received : List ℕ → Bool → Read
  nothing : Bool → Bool → Read
  failed : Read

-- What `receive_jsonrpc_line` returns: a line with the number of bytes to consume, a null pointer, or
-- nothing yet, while it waits for a read.
pub data Received : Type 0 where
  line : List ℕ → ℕ → Received
  null : Received
  waiting : Received

-- The bytes before the first newline.
pub line_before : List ℕ → Option (List ℕ)
line_before [] = none
line_before (ch ∷ content) =
    if ch == 10
    then some []
    else elim (line_before content) [ none ↦ none | some l ↦ some (ch ∷ l) ]

-- A carriage return at the end of the line is not part of it.
pub without_cr : List ℕ → List ℕ
without_cr [] = []
without_cr (ch ∷ []) = if ch == 13 then [] else ch ∷ []
without_cr (ch ∷ next ∷ l) = ch ∷ without_cr (next ∷ l)

abbrev pub empty : RxBuffer → RxBuffer
empty b = record b { content = [] }

-- The loop of `receive_jsonrpc_line`, with the reads that are left: the test for a newline, then a
-- read.
pub receive_loop : List Read → RxBuffer → RxBuffer × Received × List Read
unfolding line_before without_cr rx_buffer_reserve
receive_loop [] b = elim (line_before b.content) [
  | some l ↦ (b, line (without_cr l) (length l + 1), [])
  | none ↦ (b, waiting, [])
]
receive_loop (failed ∷ reads) b = elim (line_before b.content) [
  | some l ↦ (b, line (without_cr l) (length l + 1), failed ∷ reads)
  | none ↦ (empty b, null, reads)
]
receive_loop (nothing leave idle ∷ reads) b = elim (line_before b.content) [
  | some l ↦ (b, line (without_cr l) (length l + 1), nothing leave idle ∷ reads)
  | none ↦
      let rest = receive_loop reads b in
      if leave then (b, null, reads) else if idle then (empty b, null, reads) else rest
]
receive_loop (received bytes allocated ∷ reads) b = elim (line_before b.content) [
  | some l ↦ (b, line (without_cr l) (length l + 1), received bytes allocated ∷ reads)
  | none ↦ elim (rx_buffer_reserve b (length b.content + length bytes + 1) allocated) [
    | none ↦ (empty b, null, reads)
    | some reserved ↦ receive_loop reads (record reserved { content = b.content ++ bytes })
  ]
]

-- `receive_jsonrpc_line`; `allocated` is for the first buffer.
pub receive_jsonrpc_line : Bool → List Read → RxBuffer → RxBuffer × Received × List Read
unfolding receive_loop rx_buffer_reserve
receive_jsonrpc_line allocated reads b = elim (rx_buffer_reserve b buffer_size allocated) [
  | none ↦ (b, null, reads)
  | some reserved ↦ receive_loop reads reserved
]

pub consume_jsonrpc_line : RxBuffer → ℕ → RxBuffer
consume_jsonrpc_line b consumed =
    if consumed == 0
    then b
    else if ltb (length b.content) consumed
    then empty b
    else record b { content = drop consumed b.content }
