-- ===== src/Lines.antt =====
-- src/backend/streamy/line_transform_stream.js: a stream of byte chunks becomes a stream of lines.
pub mod Chunks
mod Tests
use gaia_email_libs_and_more.Common.{
  ℕ, Bool, ◌&&◌, Option, none, some, List, [], ◌∷◌, ◌++◌, ◌==◌, if◌then◌else◌, for_each, true,
  false,
}

-- `partialLineBuffer`, and what the readable side was given by `c.enqueue`.
pub record Stream : Type 0 where
  pub partial_line_buffer : Option (List ℕ)
  pub enqueued : List (List ℕ)

abbrev pub is_crlf : ℕ → ℕ → Bool
is_crlf a b = a == 13 && b == 10

-- The `for` loop of `write`. `line` holds the bytes from `lastEndIndex` up to `i`, and the second
-- argument the bytes from `i` on; the result holds the lines and `chunk.subarray(lastEndIndex)`.
unfoldable pub scan : List ℕ → List ℕ → List (List ℕ) × List ℕ
scan line [] = ([], line)
scan line (a ∷ []) = ([], line ++ a ∷ [])
scan line (a ∷ b ∷ rest) =
    let cut = scan [] rest in
    let on = scan (line ++ a ∷ []) (b ∷ rest) in
    if is_crlf a b then ((line ++ a ∷ b ∷ []) ∷ cut.0, cut.1) else on

-- `if (lastEndIndex < chunk.length)` keeps what is left over.
abbrev pub left_over : List ℕ → Option (List ℕ)
left_over [] = none
left_over (a ∷ rest) = some (a ∷ rest)

abbrev pub buffered : Option (List ℕ) → List ℕ
buffered none = []
buffered (some bytes) = bytes

-- `write(chunk)`.
unfoldable pub write : Stream → List ℕ → Stream
write s chunk =
    let (lines, rest) = scan [] (buffered s.partial_line_buffer ++ chunk) in
    record { partial_line_buffer = left_over rest; enqueued = s.enqueued ++ lines }

abbrev pub fresh : Stream
fresh = record { partial_line_buffer = none; enqueued = [] }

-- A run of writes.
unfoldable pub write_all : Stream → List (List ℕ) → Stream
write_all s chunks = for_each write s chunks
