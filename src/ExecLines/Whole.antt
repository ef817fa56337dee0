-- ===== src/ExecLines/Whole.antt =====
-- The lines that apps/server/src/exec-lines.ts passes on, against the whole output of each stream.

use mathlib.Core.List.{append-nil}
use server_central.Prelude.{
  ℕ, ◌≡◌, refl, sym, subst, ap, ◌∙◌, String, Char, code, true, false, List, [], ◌∷◌, ◌++◌, map,
  if◌then◌else◌, ◌==◌, is_empty, trim, Bool-cases, inl, inr,
}
use server_central.Prelude.Text.Split
use server_central.Prelude.Text.Split.{◌+++◌, split, cons_head, split-cons}
use server_central.ExecLines.{
  Stream, stdout, stderr, same_stream, Lines, all_but_last, last_part, on_chunk, feed, flush,
  run_streaming_lines,
}

-- The lines that were passed on for one stream.
unfoldable pub lines_on : Stream → List (Stream × String) → List String
lines_on stream [] = []
lines_on stream ((other, line) ∷ log) =
    let rest = lines_on stream log in if same_stream other stream then line ∷ rest else rest

-- All that one stream wrote.
unfoldable pub output_of : Stream → List (Stream × String) → String
output_of stream [] = ""
output_of stream ((other, chunk) ∷ chunks) =
    let rest = output_of stream chunks in if same_stream other stream then chunk +++ rest else rest

-- The reference: the lines of the whole text, and what follows the last newline unless it is blank.
unfoldable pub lines_of : String → List String
unfolding split all_but_last last_part
lines_of text =
    let parts = split 10 text in
    all_but_last parts ++ (if is_empty (trim (last_part parts)) then [] else last_part parts ∷ [])

all_but_last-append :
    (xs : List String) (y : String) (ys : List String)
    → all_but_last (xs ++ y ∷ ys) ≡ xs ++ all_but_last (y ∷ ys)
unfolding all_but_last
all_but_last-append [] y ys = refl
all_but_last-append (x ∷ []) y ys = refl
all_but_last-append (x ∷ z ∷ xs) y ys = ap (λ r. x ∷ r) (all_but_last-append (z ∷ xs) y ys)

last_part-append :
    (xs : List String) (y : String) (ys : List String)
    → last_part (xs ++ y ∷ ys) ≡ last_part (y ∷ ys)
unfolding last_part
last_part-append [] y ys = refl
last_part-append (x ∷ []) y ys = refl
last_part-append (x ∷ z ∷ xs) y ys = last_part-append (z ∷ xs) y ys

char_step :
    (x : ℕ) (c : Char) (h : String) (t : List String) (d : String) (rest : List String)
    → (code c == x) ≡ false
    → rest ≡ all_but_last (h ∷ t) ++ split x (last_part (h ∷ t) +++ d)
    → cons_head c rest
      ≡ all_but_last (cons_head c (h ∷ t)) ++ split x (last_part (cons_head c (h ∷ t)) +++ d)
unfolding split all_but_last last_part
char_step x c h [] d rest other e = rw (e, other) refl
char_step x c h (u ∷ us) d rest other e = rw e refl

-- Splitting can go on from the last part.
split-last_part :
    (x : ℕ) (w d : String)
    → split x (w +++ d) ≡ all_but_last (split x w) ++ split x (last_part (split x w) +++ d)
unfolding split all_but_last last_part
split-last_part x String.[] d = refl
split-last_part x (String.◌∷◌ c w) d =
    let (h, t, e) = split-cons x w in
    elim (Bool-cases (code c == x)) [
      | inl same ↦ rw (same, e) (ap (λ r. String.[] ∷ r) (rw e at (split-last_part x w d)))
      | inr other ↦
          rw (other, e)
            (char_step x c h t d (split x (w +++ d)) other (rw e at (split-last_part x w d)))
    ]

-- The complete lines of a text to which a chunk is added, and its last part.
all_but_last-more :
    (w d : String)
    → all_but_last (split 10 (w +++ d))
      ≡ all_but_last (split 10 w) ++ all_but_last (split 10 (last_part (split 10 w) +++ d))
all_but_last-more w d =
    let (h, t, e) = split-cons 10 (last_part (split 10 w) +++ d) in
    ap all_but_last (split-last_part 10 w d)
    ∙ rw e (all_but_last-append (all_but_last (split 10 w)) h t)

last_part-more :
    (w d : String)
    → last_part (split 10 (w +++ d)) ≡ last_part (split 10 (last_part (split 10 w) +++ d))
last_part-more w d =
    let (h, t, e) = split-cons 10 (last_part (split 10 w) +++ d) in
    ap last_part (split-last_part 10 w d) ∙ rw e (last_part-append (all_but_last (split 10 w)) h t)

lines_on-append :
    (stream : Stream) (xs ys : List (Stream × String))
    → lines_on stream (xs ++ ys) ≡ lines_on stream xs ++ lines_on stream ys
unfolding lines_on
lines_on-append stream [] ys = refl
lines_on-append stream ((other, line) ∷ xs) ys = elim (Bool-cases (same_stream other stream)) [
  | inl e ↦ rw (e, lines_on-append stream xs ys) refl
  | inr e ↦ rw (e, lines_on-append stream xs ys) refl
]

lines_on-tagged :
    (stream other : Stream) (lines : List String)
    → lines_on stream (map (λ line. (other, line)) lines)
      ≡ (if same_stream other stream then lines else [])
unfolding lines_on
lines_on-tagged stream other [] = elim (Bool-cases (same_stream other stream)) [
  | inl e ↦ rw e refl
  | inr e ↦ rw e refl
]
lines_on-tagged stream other (x ∷ xs) = elim (Bool-cases (same_stream other stream)) [
  | inl e ↦ rw (e, lines_on-tagged stream other xs, e) refl
  | inr e ↦ rw (e, lines_on-tagged stream other xs, e) refl
]

same_stream_refl : (a : Stream) → same_stream a a ≡ true
same_stream_refl stdout = refl
same_stream_refl stderr = refl

same_stream-eq : (a b : Stream) → same_stream a b ≡ true → a ≡ b
same_stream-eq stdout stdout h = refl
same_stream-eq stderr stderr h = refl
same_stream-eq stdout stderr h = cc
same_stream-eq stderr stdout h = cc

-- The lines of the text so far were passed on, and its last part is held back.
abbrev Follows : Stream → Lines → String → Type 0
Follows stream s w =
    (lines_on stream s.log ≡ all_but_last (split 10 w))
    × (s.buffered stream ≡ last_part (split 10 w))

on_chunk-Follows :
    (stream : Stream) (chunk w : String) (s : Lines)
    → Follows stream s w
    → Follows stream (on_chunk stream chunk s) (w +++ chunk)
unfolding on_chunk
on_chunk-Follows stream chunk w s (e, b) = (
  lines_on-append stream s.log _
      ∙ rw
          (
            lines_on-tagged stream stream (all_but_last (split 10 (s.buffered stream +++ chunk))),
            same_stream_refl stream,
            e,
            b,
          )
          (sym (all_but_last-more w chunk)),
  rw (same_stream_refl stream, b) (sym (last_part-more w chunk)),
)

on_chunk-other :
    (stream other : Stream) (chunk w : String) (s : Lines)
    → same_stream other stream ≡ false
    → Follows stream s w
    → Follows stream (on_chunk other chunk s) w
unfolding on_chunk
on_chunk-other stream other chunk w s differ (e, b) = (
  lines_on-append stream s.log _
      ∙ rw
          (
            lines_on-tagged stream other (all_but_last (split 10 (s.buffered other +++ chunk))),
            differ,
          )
          (append-nil (lines_on stream s.log) ∙ e),
  rw differ b,
)

feed-Follows :
    (stream : Stream) (chunks : List (Stream × String)) (w : String) (s : Lines)
    → Follows stream s w
    → Follows stream (feed chunks s) (w +++ output_of stream chunks)
unfolding feed output_of
feed-Follows stream [] w s h = subst (Follows stream s) (sym (Split.append-nil w)) h
feed-Follows stream ((other, chunk) ∷ chunks) w s h = elim (Bool-cases (same_stream other stream)) [
  | inl e ↦ rw e (
      subst (Follows stream (feed chunks (on_chunk other chunk s)))
        (Split.append_assoc w chunk (output_of stream chunks))
        (feed-Follows stream chunks (w +++ chunk) (on_chunk other chunk s) (
          subst (λ o. Follows stream (on_chunk o chunk s) (w +++ chunk))
            (sym (same_stream-eq other stream e)) (on_chunk-Follows stream chunk w s h))))
  | inr e ↦ rw e (
      feed-Follows stream chunks w (on_chunk other chunk s)
        (on_chunk-other stream other chunk w s e h))
]

abbrev ending : String → List String
ending text = if is_empty (trim text) then [] else text ∷ []

lines_on-flush :
    (stream other : Stream) (s : Lines)
    → lines_on stream (flush other s).log
      ≡ lines_on stream s.log
        ++ (if same_stream other stream then ending (s.buffered other) else [])
unfolding flush lines_on
lines_on-flush stream other s = elim (Bool-cases (is_empty (trim (s.buffered other)))) [
  | inl e ↦ elim (Bool-cases (same_stream other stream)) [
    | inl f ↦ rw (e, f) (sym (append-nil (lines_on stream s.log)))
    | inr f ↦ rw (e, f) (sym (append-nil (lines_on stream s.log)))
  ]
  | inr e ↦ elim (Bool-cases (same_stream other stream)) [
    | inl f ↦ rw (e, f) (lines_on-append stream s.log ((other, s.buffered other) ∷ []) ∙ rw f refl)
    | inr f ↦ rw (e, f) (lines_on-append stream s.log ((other, s.buffered other) ∷ []) ∙ rw f refl)
  ]
]

buffered-flush : (other : Stream) (s : Lines) → (flush other s).buffered ≡ s.buffered
unfolding flush
buffered-flush other s = elim (Bool-cases (is_empty (trim (s.buffered other)))) [
  | inl e ↦ rw e refl
  | inr e ↦ rw e refl
]

flush_both :
    (stream : Stream) (s : Lines)
    → lines_on stream (flush stderr (flush stdout s)).log
      ≡ lines_on stream s.log ++ ending (s.buffered stream)
flush_both stdout s =
    lines_on-flush stdout stderr (flush stdout s)
    ∙ append-nil (lines_on stdout (flush stdout s).log)
    ∙ lines_on-flush stdout stdout s
flush_both stderr s =
    lines_on-flush stderr stderr (flush stdout s)
    ∙ rw (lines_on-flush stderr stdout s, buffered-flush stdout s)
        (ap (λ r. r ++ ending (s.buffered stderr)) (append-nil (lines_on stderr s.log)))

start-Follows : (stream : Stream) → Follows stream (record { buffered = λ other. ""; log = [] }) ""
unfolding lines_on split all_but_last last_part
start-Follows stream = (refl, refl)

-- However the output is cut into chunks, and however those of the two streams alternate, the lines
-- passed on for a stream are the lines of all that it wrote, with what follows the last newline
-- unless it is blank.
pub run_streaming_lines_lem :
    (stream : Stream) (chunks : List (Stream × String))
    → lines_on stream (run_streaming_lines chunks) ≡ lines_of (output_of stream chunks)
unfolding run_streaming_lines lines_of
run_streaming_lines_lem stream chunks =
    let start : Lines = record { buffered = λ other. ""; log = [] } in
    let (e, b) = feed-Follows stream chunks "" start (start-Follows stream) in
    flush_both stream (feed chunks start) ∙ rw (e, b) refl
