-- ===== src/ExecLines/Tests.antt =====
-- Runs of apps/server/src/exec-lines.ts, and the witness of its theorem.

use server_central.Prelude.{List, [], ◌∷◌, String, ◌≡◌, refl, trim}
use server_central.Prelude.Text.Split.{split}
use server_central.ExecLines.{
  Stream, stdout, stderr, all_but_last, last_part, on_chunk, feed, flush, run_streaming_lines,
}
use server_central.ExecLines.Whole.{lines_on, lines_of, output_of, run_streaming_lines_lem}

abbrev pulled : List (Stream × String)
pulled =
    (stdout, "Pulling db")
    ∷ (stderr, "warn")
    ∷ (stdout, " done\nPull")
    ∷ (stderr, "ing\n ")
    ∷ (stdout, "ed")
    ∷ []

pulled_run :
    run_streaming_lines pulled
    ≡ (stdout, "Pulling db done") ∷ (stderr, "warning") ∷ (stdout, "Pulled") ∷ []
unfolding run_streaming_lines feed on_chunk flush split all_but_last last_part trim
pulled_run = refl

run_streaming_lines_lem_example :
    lines_on stdout (run_streaming_lines pulled) ≡ lines_of (output_of stdout pulled)
run_streaming_lines_lem_example = run_streaming_lines_lem stdout pulled
