-- ===== src/ExecLines.antt =====
-- apps/server/src/exec-lines.ts: the output of a command, which arrives in chunks, passed on a line at a
-- time. `chunks` is what `HostAgent.runStream` hands over, in its order; `buffered` is a function of the
-- stream, and `log` what `onLog` was called with.
pub mod Whole
mod Tests
use Prim.Native.String
use server_central.Prelude.{
  String, Bool, true, false, List, [], ◌∷◌, ◌++◌, map, if◌then◌else◌, is_empty, trim,
}
use server_central.Prelude.Text.Split.{◌+++◌, split}

pub data Stream : Type 0 where
  stdout stderr : Stream

abbrev pub same_stream : Stream → Stream → Bool
same_stream stdout stdout = true
same_stream stderr stderr = true
same_stream _ _ = false

pub record Lines : Type 0 where
  pub buffered : Stream → String
  pub log : List (Stream × String)

-- The parts without the last, and the last: what `pop` leaves and takes.
unfoldable pub all_but_last : List String → List String
all_but_last [] = []
all_but_last (x ∷ []) = []
all_but_last (x ∷ y ∷ xs) = x ∷ all_but_last (y ∷ xs)

unfoldable pub last_part : List String → String
last_part [] = ""
last_part (x ∷ []) = x
last_part (x ∷ y ∷ xs) = last_part (y ∷ xs)

abbrev pub put_buffer : Stream → String → (Stream → String) → Stream → String
put_buffer stream text buffered other = if same_stream stream other then text else buffered other

-- The callback of `runStream`.
unfoldable pub on_chunk : Stream → String → Lines → Lines
unfolding split all_but_last last_part
on_chunk stream chunk s =
    let lines = split 10 (s.buffered stream +++ chunk) in
    record {
      buffered = put_buffer stream (last_part lines) s.buffered;
      log = s.log ++ map (λ line. (stream, line)) (all_but_last lines);
    }

unfoldable pub feed : List (Stream × String) → Lines → Lines
unfolding on_chunk
feed [] s = s
feed ((stream, chunk) ∷ chunks) s = feed chunks (on_chunk stream chunk s)

-- A line that the output ends with, without a newline.
unfoldable pub flush : Stream → Lines → Lines
flush stream s =
    if is_empty (trim (s.buffered stream))
    then s
    else record s { log = s.log ++ (stream, s.buffered stream) ∷ [] }

unfoldable pub run_streaming_lines : List (Stream × String) → List (Stream × String)
unfolding feed flush
run_streaming_lines chunks =
    (flush stderr (flush stdout (feed chunks (record { buffered = λ stream. ""; log = [] })))).log
