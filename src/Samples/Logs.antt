-- ===== src/Samples/Logs.antt =====
-- The theorems on the durable log, applied: a codec that keeps the bundle hash of a verdict.
use kiln_cli.Prelude.Result.{ok}
use kiln_cli.Prelude.Text.{is_blank}
use kiln_cli.Interface.Verdicts.{Verdict, Consequence, VerdictEvent}
use kiln_cli.Stream.Durable.{
  open_log-Tracks, RoundTrips, Tracks, IsEnded, added, append-read_all, append-Tracks,
  append_idempotent,
}
use kiln_cli.Samples.{Value}
use kiln_cli.Prelude.Dict.{insert}
use kiln_cli.Stream.{Codec, Disk, read_all, append, open_log}
use kiln_cli.Prelude.{contains, String, ◌≡◌, refl, true, false, none, some, [], ◌∷◌, ◌++◌}

abbrev pub verdict_of : String → VerdictEvent Value
verdict_of hash = record {
  event_id = "ve";
  emitted_at = "t";
  unit_ref = "u";
  parent_deliverable = "d";
  bundle_hash = hash;
  verdict = Verdict.accepted;
  missing_capabilities = none;
  tier_ran = some "light";
  cell_results = [];
  delivery_result = none;
  next_consequence = Consequence.advance;
}

abbrev pub hash_codec : Codec Value
hash_codec = record { to_string = λ v. v.bundle_hash; from_str = λ line. some (verdict_of line) }

hash_codec-RoundTrips : RoundTrips hash_codec (verdict_of "h2")
unfolding is_blank
hash_codec-RoundTrips = record { solid = refl; parses = refl }

abbrev pub one_line : Disk
one_line = some ("h1" ∷ [], "")

open_log-Tracks_example : Tracks hash_codec (open_log hash_codec one_line) one_line
open_log-Tracks_example = open_log-Tracks hash_codec one_line

append-read_all_example :
    (read_all hash_codec (append hash_codec (ok tt) ("h1" ∷ []) one_line (verdict_of "h2")).1
      ≡ read_all hash_codec one_line ++ added hash_codec (verdict_of "h2") true)
    × IsEnded hash_codec (append hash_codec (ok tt) ("h1" ∷ []) one_line (verdict_of "h2")).1
unfolding append
append-read_all_example =
    append-read_all hash_codec (ok tt) ("h1" ∷ []) one_line (verdict_of "h2") true
      hash_codec-RoundTrips refl refl

append-Tracks_example :
    Tracks hash_codec
      (append hash_codec (ok tt) (open_log hash_codec one_line) one_line (verdict_of "h2")).0
      (append hash_codec (ok tt) (open_log hash_codec one_line) one_line (verdict_of "h2")).1
    × ((h : String)
        → contains h (
            open_log hash_codec
              (append hash_codec
                (ok tt)
                (open_log hash_codec one_line)
                one_line
                (verdict_of "h2")).1)
          ≡ contains h
              (append hash_codec
                (ok tt)
                (open_log hash_codec one_line)
                one_line
                (verdict_of "h2")).0)
unfolding append open_log insert
append-Tracks_example =
    append-Tracks hash_codec (ok tt) (open_log hash_codec one_line) one_line (verdict_of "h2") true
      hash_codec-RoundTrips refl (open_log-Tracks hash_codec one_line) refl

append_idempotent_example :
    append hash_codec
      (ok tt)
      (append hash_codec (ok tt) ("h1" ∷ []) one_line (verdict_of "h2")).0
      (append hash_codec (ok tt) ("h1" ∷ []) one_line (verdict_of "h2")).1
      (record (verdict_of "h2") { unit_ref = "v" })
    ≡ (
      (append hash_codec (ok tt) ("h1" ∷ []) one_line (verdict_of "h2")).0,
      (append hash_codec (ok tt) ("h1" ∷ []) one_line (verdict_of "h2")).1,
      ok false,
    )
unfolding append insert
append_idempotent_example =
    append_idempotent hash_codec (ok tt) (ok tt) ("h1" ∷ []) one_line (verdict_of "h2")
      (record (verdict_of "h2") { unit_ref = "v" }) true refl refl
