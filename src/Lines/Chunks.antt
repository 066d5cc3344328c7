-- ===== src/Lines/Chunks.antt =====
-- How the input is cut into chunks does not matter, and no byte is lost.
use gaia_email_libs_and_more.Common.{
  ℕ, ◌≡◌, refl, sym, ap, ◌∙◌, false, List, [], ◌∷◌, ◌++◌, for_each, arith, append-nil, append_assoc,
  Bool-cases, inl, inr, All,
}
use gaia_email_libs_and_more.Lines.{
  Stream, is_crlf, scan, left_over, buffered, write, fresh, write_all,
}

unfoldable pub concat : List (List ℕ) → List ℕ
concat [] = []
concat (l ∷ ls) = l ++ concat ls

-- No line break lies in `line`, or between it and the first byte of what follows.
abbrev pub IsClean : List ℕ → List ℕ → Type 0
IsClean [] rest = Unit
IsClean (a ∷ []) [] = Unit
IsClean (a ∷ []) (b ∷ rest) = is_crlf a b ≡ false
IsClean (a ∷ b ∷ line) rest = (is_crlf a b ≡ false) × IsClean (b ∷ line) rest

-- Bytes without a line break can be scanned, or be held already.
scan-shift :
    (line more rest : List ℕ)
    → IsClean more rest
    → scan line (more ++ rest) ≡ scan (line ++ more) rest
unfolding scan
scan-shift line [] rest c = rw append-nil
scan-shift line (a ∷ []) [] c = refl
scan-shift line (a ∷ []) (b ∷ rest) c = rw c
scan-shift line (a ∷ b ∷ more) rest c = rw c.0 (
    scan-shift (line ++ a ∷ []) (b ∷ more) rest c.1
    ∙ ap (λ (l : List ℕ). scan l rest) (append_assoc line (a ∷ []) (b ∷ more)))

IsClean-first :
    (line : List ℕ) (a : ℕ) (rest rest' : List ℕ)
    → IsClean line (a ∷ rest)
    → IsClean line (a ∷ rest')
IsClean-first [] a rest rest' c = tt
IsClean-first (b ∷ []) a rest rest' c = c
IsClean-first (b ∷ b' ∷ line) a rest rest' c = (c.0, IsClean-first (b' ∷ line) a rest rest' c.1)

IsClean-snoc :
    (line : List ℕ) (a b : ℕ) (rest : List ℕ)
    → IsClean line (a ∷ [])
    → is_crlf a b ≡ false
    → IsClean (line ++ a ∷ []) (b ∷ rest)
IsClean-snoc [] a b rest c k = k
IsClean-snoc (x ∷ []) a b rest c k = (c, k)
IsClean-snoc (x ∷ y ∷ line) a b rest c k = (c.0, IsClean-snoc (y ∷ line) a b rest c.1 k)

IsClean-end : (line : List ℕ) (a : ℕ) → IsClean line (a ∷ []) → IsClean (line ++ a ∷ []) []
IsClean-end [] a c = tt
IsClean-end (x ∷ []) a c = (c, tt)
IsClean-end (x ∷ y ∷ line) a c = (c.0, IsClean-end (y ∷ line) a c.1)

-- To scan two chunks in turn is to scan them together.
scan-append :
    (line a b : List ℕ)
    → IsClean line a
    → (a ≡ [] → line ≡ [])
    → ((scan line (a ++ b)).0 ≡ (scan line a).0 ++ (scan [] ((scan line a).1 ++ b)).0)
      × ((scan line (a ++ b)).1 ≡ (scan [] ((scan line a).1 ++ b)).1)
unfolding scan
scan-append line [] b c start = rw (start refl) (refl, refl)
scan-append line (x ∷ []) b c start =
    let same = scan-shift [] line (x ∷ b) (IsClean-first line x [] b c) in
    let shifted = append_assoc line (x ∷ []) b in (rw (shifted, same), rw (shifted, same))
scan-append line (x ∷ y ∷ a) b c start = elim (Bool-cases (is_crlf x y)) [
  | inl cut ↦
      let (lines, left) = scan-append [] a b tt (λ _. refl) in
      rw cut (ap (◌∷◌ (line ++ x ∷ y ∷ [])) lines, left)
  | inr on ↦ rw on (
      scan-append (line ++ x ∷ []) (y ∷ a) b
        (IsClean-snoc line x y a (IsClean-first line x (y ∷ a) [] c) on) (λ e. cc))
]

-- The lines that the bytes hold, and the bytes behind the last line break.
pub lines_of : List ℕ → List (List ℕ)
lines_of bytes = (scan [] bytes).0

pub rest_of : List ℕ → List ℕ
rest_of bytes = (scan [] bytes).1

buffered-left_over : (bytes : List ℕ) → buffered (left_over bytes) ≡ bytes
buffered-left_over [] = refl
buffered-left_over (a ∷ bytes) = refl

-- The stream that has been given these bytes.
abbrev fed : List ℕ → Stream
fed bytes = record { partial_line_buffer = left_over (rest_of bytes); enqueued = lines_of bytes }

write-fed : (seen chunk : List ℕ) → write (fed seen) chunk ≡ fed (seen ++ chunk)
unfolding write lines_of rest_of
write-fed seen chunk =
    let (lines, rest) = scan-append [] seen chunk tt (λ _. refl) in
    rw (buffered-left_over, lines, rest)

write_all-fed :
    (chunks : List (List ℕ)) (seen : List ℕ)
    → write_all (fed seen) chunks ≡ fed (seen ++ concat chunks)
unfolding write_all for_each concat
write_all-fed [] seen = rw append-nil
write_all-fed (chunk ∷ chunks) seen =
    ap (λ (s : Stream). for_each write s chunks) (write-fed seen chunk)
    ∙ write_all-fed chunks (seen ++ chunk)
    ∙ ap fed (append_assoc seen chunk (concat chunks))

-- A line is a body without a line break, and one line break.
abbrev pub IsLine : List ℕ → Type 0
IsLine l = (body : List ℕ) × (l ≡ body ++ 13 ∷ 10 ∷ []) × IsClean body (13 ∷ [])

scan_splits :
    (line a : List ℕ)
    → IsClean line a
    → (concat (scan line a).0 ++ (scan line a).1 ≡ line ++ a)
      × All IsLine (scan line a).0
      × IsClean (scan line a).1 []
unfolding scan concat
scan_splits line [] c = (sym (append-nil line), tt, c)
scan_splits line (x ∷ []) c = (refl, tt, IsClean-end line x c)
scan_splits line (x ∷ y ∷ a) c = elim (Bool-cases (is_crlf x y)) [
  | inl cut ↦
      let (whole, lines, clean) = scan_splits [] a tt in
      let at_cr : x ≡ 13 = ground arith in
      let at_lf : y ≡ 10 = ground arith in
      rw cut (
        simp (append_assoc, whole),
        ((line, rw (at_cr, at_lf), rw at_cr at (IsClean-first line x (y ∷ a) [] c)), lines),
        clean,
      )
  | inr on ↦
      let (whole, lines, clean) =
        scan_splits (line ++ x ∷ []) (y ∷ a)
          (IsClean-snoc line x y a (IsClean-first line x (y ∷ a) [] c) on) in
      rw on (whole ∙ append_assoc line (x ∷ []) (y ∷ a), lines, clean)
]

-- However the input is cut into chunks, the lines and the partial line are the same.
pub write_all-regroup :
    (chunks chunks' : List (List ℕ))
    → concat chunks ≡ concat chunks'
    → write_all fresh chunks ≡ write_all fresh chunks'
unfolding rest_of lines_of scan
write_all-regroup chunks chunks' same =
    write_all-fed chunks [] ∙ ap fed same ∙ sym (write_all-fed chunks' [])

-- After any writes: the lines and the partial line are together the input; every line ends in CR LF
-- and has no other CR LF; the partial line has none.
pub write_all-splits :
    (chunks : List (List ℕ))
    → (concat (write_all fresh chunks).enqueued
          ++ buffered (write_all fresh chunks).partial_line_buffer
        ≡ concat chunks)
      × All IsLine (write_all fresh chunks).enqueued
      × IsClean (buffered (write_all fresh chunks).partial_line_buffer) []
unfolding rest_of lines_of scan
write_all-splits chunks =
    let bytes = concat chunks in
    rw (write_all-fed chunks [], buffered-left_over)
      (unfold lines_of rest_of in scan_splits [] bytes tt)
