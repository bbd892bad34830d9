-- ===== src/FileServer/Delivery.antt =====
-- What a file transfer of task_7/homework delivers, from send_file_to_client to receive_file.
use sem.Base.{
  ℕ, zero, suc, ◌≤◌, ◌<◌, min, ◌≡◌, refl, ap, Bool, true, [], ◌∷◌, arith, ltb, length, take,
  length-take, ◌-◌, ◌∙◌, false, ◌&&◌, ◌++◌, ◌==◌, if◌then◌else◌, lt→ltb, if-both, drop,
  take-append-drop, length-drop, ◌+◌, sym, some, append-nil, All, append_assoc, length-append,
  pos-ne-zero, take_all,
}
use sem.Text.{Bytes, codes, starts_with, cstr}
use sem.Numbers.{decimal, size_mod, scan_size, scan_size-decimal, length-decimal, decimal-All}
use sem.FileServer.Transfer.{
  buffer_size, send_chunks, read_header, scan_header, receive_chunks, size_header,
  send_file_to_client, receive_file,
}

write_whole :
    (chunk more : Bytes) (a : ℕ)
    → a ≡ length chunk
    → 0 < length chunk
    → (if length chunk == 0
        then []
        else if min a (length chunk) == 0
        then []
        else take (min a (length chunk)) chunk ++ more)
      ≡ chunk ++ more
write_whole chunk more a e h =
    let full : min a (length chunk) ≡ length chunk = omega arith in
    let some_bytes : (length chunk == 0) ≡ false = ground arith in
    rw (full, some_bytes, take_all chunk (length chunk) (omega arith))

take-take : (k n : ℕ) (s : Bytes) → k ≤ n → take k (take n s) ≡ take k s
take-take zero n s h = refl
take-take (suc k) zero s h = elim h [ ]
take-take (suc k) (suc n) [] h = refl
take-take (suc k) (suc n) (c ∷ s) h = ap (◌∷◌ c) (take-take k n s (omega arith))

-- With whole writes all that fread gives is written, also where `left` is more.
send_chunks-whole :
    (fuel : ℕ) (running : ℕ → Bool) (accepts : ℕ → ℕ → ℕ) (turn : ℕ) (rest : Bytes) (left : ℕ)
    → ((t : ℕ) → turn ≤ t → running t ≡ true)
    → ((t n : ℕ) → turn ≤ t → accepts t n ≡ n)
    → length rest < fuel
    → length rest ≤ left
    → send_chunks fuel running accepts turn rest left ≡ rest
unfolding send_chunks
send_chunks-whole zero running accepts turn rest left run whole h l = elim h [ ]
send_chunks-whole (suc fuel) running accepts turn [] left run whole h l =
    if-both (λ (b : Bytes). b ≡ []) (ltb 0 left && running turn) (λ _. refl) (λ _. refl)
send_chunks-whole (suc fuel) running accepts turn (c ∷ s) left run whole h l =
    let rest : Bytes = c ∷ s in
    let chunk = take buffer_size rest in
    let size : length chunk ≡ min buffer_size (length rest) = length-take buffer_size rest in
    let less : length (drop buffer_size rest) ≡ length rest - buffer_size =
      length-drop buffer_size rest in
    let going : ltb 0 left ≡ true = lt→ltb 0 left (omega arith) in
    let all : accepts turn (length chunk) ≡ length chunk =
      whole turn (length chunk) (omega arith) in
    rw (going, run turn (omega arith))
      (write_whole chunk _ (accepts turn (length chunk)) all (omega (arith, size))
        ∙ ap (λ b. chunk ++ b)
            (send_chunks-whole fuel running accepts (suc turn) (drop buffer_size rest) _
              (λ t k. run t (omega arith)) (λ t n k. whole t n (omega arith)) (omega (arith, less))
              (omega (arith, less, size, all)))
        ∙ take-append-drop buffer_size rest)

-- The header

read_header-line :
    (room : ℕ) (h rest : Bytes)
    → length h < room
    → All (λ c. (c == b'\n') ≡ false) h
    → read_header room (h ++ b'\n' ∷ rest) ≡ some (h, rest)
unfolding read_header
read_header-line zero h rest l a = elim l [ ]
read_header-line (suc room) [] rest l a = refl
read_header-line (suc room) (c ∷ h) rest l a =
    rw (a.0, read_header-line room h rest (omega arith) a.1)

cstr-id : (s : Bytes) → All (λ c. (c == 0) ≡ false) s → cstr s ≡ s
unfolding cstr
cstr-id [] a = refl
cstr-id (c ∷ s) a = rw (a.0, cstr-id s a.1)

abbrev header_line : ℕ → Bytes
header_line n = codes "SIZE:" ++ decimal n

scan_header-header_line : (n : ℕ) → n < size_mod → scan_header (header_line n) ≡ some n
unfolding scan_header starts_with
scan_header-header_line n h =
    let plain : cstr (header_line n) ≡ header_line n = cstr-id (header_line n) (
      refl,
      (refl, (refl, (refl, (refl, decimal-All (λ c. (c == 0) ≡ false) (λ c d. ground arith) n)))),
    ) in
    let read : scan_size (decimal n) ≡ some (n, []) =
      ap scan_size (sym (append-nil (decimal n))) ∙ scan_size-decimal n [] h tt in
    rw (plain, read)

drop-append : (n : ℕ) (s t : Bytes) → n ≤ length s → drop n (s ++ t) ≡ drop n s ++ t
drop-append zero s t h = refl
drop-append (suc n) [] t h = elim h [ ]
drop-append (suc n) (c ∷ s) t h = drop-append n s t (omega arith)

receive_chunks-all :
    (fuel : ℕ) (chunk : ℕ → ℕ → ℕ) (turn received file_size : ℕ) (body later : Bytes)
    → received + length body ≡ file_size
    → length body < fuel
    → receive_chunks fuel chunk turn received file_size (body ++ later) ≡ some (file_size, later)
unfolding receive_chunks
receive_chunks-all zero chunk turn received file_size body later e h = elim h [ ]
receive_chunks-all (suc fuel) chunk turn received file_size [] later e h =
    let done : ltb received file_size ≡ false = ground arith in
    rw done (ap (λ (n : ℕ). some (n, later)) (omega arith))
receive_chunks-all (suc fuel) chunk turn received file_size (c ∷ s) later e h =
    let body : Bytes = c ∷ s in
    let to_read = min buffer_size (file_size - received) in
    let n = min (1 + chunk turn to_read) (min to_read (length (body ++ later))) in
    let total = length-append body later in
    let going : ltb received file_size ≡ true = lt→ltb received file_size (omega arith) in
    let within : n ≤ length body = omega arith in
    let some_bytes : 0 < n = omega (arith, total) in
    let moves : (n == 0) ≡ false = ground arith in
    rw (going, moves, drop-append n body later within)
      (receive_chunks-all fuel chunk (suc turn) (received + n) file_size (drop n body) later
        (omega (arith, length-drop n body, within)) (omega (arith, length-drop n body, within)))

-- The theorems

-- The server runs throughout, and each write takes all that it is given.
pub record WholeWrites (running : ℕ → Bool) (accepts : ℕ → ℕ → ℕ) : Type 0 where
  pub runs : (t : ℕ) → running t ≡ true
  pub takes_all : (t n : ℕ) → accepts t n ≡ n

-- While the server runs and each write takes all it is given, the client is sent the header with
-- the length of the file and then the file, byte for byte.
pub send_file_to_client_whole :
    (running : ℕ → Bool) (accepts : ℕ → ℕ → ℕ) (content : Bytes)
    → WholeWrites running accepts
    → send_file_to_client running accepts true (some content)
      ≡ size_header (length content) ++ content
unfolding send_file_to_client
send_file_to_client_whole running accepts content w =
    ap (λ b. size_header (length content) ++ b)
      (send_chunks-whole (suc (length content)) running accepts 0 content (length content)
        (λ t k. w.runs t) (λ t n k. w.takes_all t n) (omega arith) (omega arith))

-- While the server runs and each write takes all it is given, a client that receives a file of
-- fewer than 2 ^ 64 bytes succeeds, however its reads cut the stream up: it takes the length from
-- the header, consumes that many bytes, and leaves what was sent behind them.
pub receive_file-send_file_to_client :
    (running : ℕ → Bool) (accepts chunk : ℕ → ℕ → ℕ) (content later : Bytes)
    → WholeWrites running accepts
    → length content < size_mod
    → receive_file chunk (send_file_to_client running accepts true (some content) ++ later)
      ≡ some (length content, later)
unfolding receive_file size_header
receive_file-send_file_to_client running accepts chunk content later w small =
    let n = length content in
    let line = header_line n in
    let short : length line < 63 = omega (arith, length-decimal n small) in
    let one_line : All (λ c. (c == b'\n') ≡ false) line = (
      refl,
      (
        refl,
        (refl, (refl, (refl, decimal-All (λ c. (c == b'\n') ≡ false) (λ c d. ground arith) n))),
      ),
    ) in
    let stream : send_file_to_client running accepts true (some content) ++ later
        ≡ line ++ b'\n' ∷ (content ++ later) =
      rw (send_file_to_client_whole running accepts content w) (simp append_assoc) in
    rw
      (
        stream,
        receive_file,
        read_header-line 63 line (content ++ later) short one_line,
        scan_header-header_line n small,
      )
      (receive_chunks-all (suc n) chunk 0 0 n content later (omega arith) (omega arith))

-- If the server runs throughout, the file has a full buffer at least, the first write takes only
-- `k` bytes of it, with `k` between 0 and the size of the buffer, and every later write takes all
-- it is given, then the client is sent the header, those `k` bytes, and the file from behind the
-- first buffer on: the rest of that buffer is never sent.
pub send_file_to_client_short_write :
    (running : ℕ → Bool) (accepts : ℕ → ℕ → ℕ) (content : Bytes) (k : ℕ)
    → ((t : ℕ) → running t ≡ true)
    → 0 < k
    → k < buffer_size
    → buffer_size ≤ length content
    → accepts 0 buffer_size ≡ k
    → ((t n : ℕ) → 1 ≤ t → accepts t n ≡ n)
    → send_file_to_client running accepts true (some content)
      ≡ size_header (length content) ++ (take k content ++ drop buffer_size content)
unfolding send_file_to_client send_chunks
send_file_to_client_short_write running accepts content k runs pos short long first others =
    let chunk = take buffer_size content in
    let full : length chunk ≡ buffer_size = omega (arith, length-take buffer_size content) in
    let going : ltb 0 (length content) ≡ true = lt→ltb 0 (length content) (omega arith) in
    let cut : min k buffer_size ≡ k = omega arith in
    let nonzero : (k == 0) ≡ false = pos-ne-zero k pos in
    rw (going, runs 0, full, first, cut, nonzero, take-take k buffer_size content (omega arith))
      (ap (λ b. size_header (length content) ++ (take k content ++ b))
        (send_chunks-whole (length content) running accepts 1 (drop buffer_size content) _
          (λ t h. runs t) (λ t n h. others t n h) (omega (arith, length-drop buffer_size content))
          (omega (arith, length-drop buffer_size content))))
