-- ===== src/Stream/Durable.antt =====
-- What the durable log keeps (crates/stream/src/lib.rs, `DurableLog`).
use kiln_cli.Prelude.Result.{err, Result, ok, Result-cases}
use mathlib.Core.List.{append-nil}
use text.Mathlib.TextLemmas
use kiln_cli.Prelude.Dict.{insert, contains-insert}
use kiln_cli.Prelude.Text.{is_blank}
use kiln_cli.Interface.Verdicts.{VerdictEvent}
use kiln_cli.Stream.{
  open_log, append, Codec, Disk, ended_lines, rest_of, unended, lines_of, read_lines, read_all,
  recover,
}
use kiln_cli.Prelude.{
  Bool-cases, Option-cases, contains, String, ◌≡◌, refl, ap, inl, inr, false, ◌||◌, some, List, [],
  ◌∷◌, ◌++◌, arith, ◌==◌, sym, Bool, true, eq→str_eq, eq_iff, ◌∙◌, subst, ◌<>◌,
}

module _ {V : Type 0} where
  abbrev pub hashes : List (VerdictEvent V) → List String
  hashes [] = []
  hashes (v ∷ vs) = v.bundle_hash ∷ hashes vs

module _ {V : Type 0} (codec : Codec V) where
  -- What the log relies on of serde_json for a verdict: its text is not blank and parses back.
  pub record RoundTrips (v : VerdictEvent V) : Type 0 where
    pub solid : is_blank (codec.to_string v) ≡ false
    pub parses : codec.from_str (codec.to_string v) ≡ some v

  -- The set has the hashes of the verdicts on the disk and no others.
  pub Tracks : List String → Disk → Type 0
  Tracks seen disk = (h : String) → contains h seen ≡ contains h (hashes (read_all codec disk))

  contains-recover :
      (h : String) (lines seen : List String)
      → contains h (recover codec lines seen)
        ≡ (contains h (hashes (read_lines codec lines)) || contains h seen)
  unfolding recover read_lines
  contains-recover h [] seen = refl
  contains-recover h (line ∷ lines) seen = elim (Bool-cases (is_blank line)) [
    | inl b ↦ rw (b, recover, read_lines) (contains-recover h lines seen)
    | inr s ↦ elim (Option-cases (codec.from_str line)) [
      | inl n ↦ rw (s, n, recover, read_lines) (contains-recover h lines seen)
      | inr (v, p) ↦
          rw (s, p, recover, read_lines)
            (grind (
              arith,
              contains-recover h lines (insert v.bundle_hash seen),
              contains-insert h v.bundle_hash seen,
            ))
    ]
  ]

  -- A log that is opened on any disk knows exactly the hashes that the disk has.
  pub open_log-Tracks : (disk : Disk) → Tracks (open_log codec disk) disk
  unfolding open_log read_all Tracks
  open_log-Tracks disk h = grind (arith, contains-recover h (lines_of disk) [])

  read_lines-append :
      (lines : List String) (v : VerdictEvent V)
      → RoundTrips v
      → read_lines codec (lines ++ codec.to_string v ∷ []) ≡ read_lines codec lines ++ v ∷ []
  unfolding read_lines
  read_lines-append [] v t = rw (t.solid, t.parses, read_lines) refl
  read_lines-append (line ∷ lines) v t = elim (Bool-cases (is_blank line)) [
    | inl b ↦ rw (b, read_lines) (read_lines-append lines v t)
    | inr s ↦ elim (Option-cases (codec.from_str line)) [
      | inl n ↦ rw (s, n, read_lines) (read_lines-append lines v t)
      | inr (w, p) ↦ rw (s, p, read_lines) (ap (λ vs. w ∷ vs) (read_lines-append lines v t))
    ]
  ]

  -- The three ways that an append ends.
  data Appended (seen : List String) (disk : Disk) (v : VerdictEvent V)
      : List String × Disk × Result String Bool → Type 0 where
    known : contains v.bundle_hash seen ≡ true → Appended seen disk v (seen, disk, ok false)
    failed :
        {problem : String} {left : Disk}
        → contains v.bundle_hash seen ≡ false
        → Appended seen disk v (seen, left, err problem)
    appended :
        contains v.bundle_hash seen ≡ false
        → Appended seen disk v (
          insert v.bundle_hash seen,
          some (ended_lines disk ++ (rest_of disk <> codec.to_string v) ∷ [], ""),
          ok true,
        )

  append-Appended :
      (written : Result (String × Disk) (Unit {0})) (seen : List String) (disk : Disk)
      (v : VerdictEvent V)
      → Appended seen disk v (append codec written seen disk v)
  unfolding append
  append-Appended written seen disk v = elim (Bool-cases (contains v.bundle_hash seen)) [
    | inl k ↦ rw (k, append) (known k)
    | inr f ↦ elim (Result-cases written) [
      | inl (_, w) ↦ rw (f, w, append) (failed f)
      | inr (_, w) ↦ rw (f, w, append) (appended f)
    ]
  ]

  -- The file ends with a line break, or is empty or not there.
  abbrev pub IsEnded : Disk → Type 0
  IsEnded disk = rest_of disk ≡ ""

  -- What an answer adds to what the file reads as.
  abbrev pub added : VerdictEvent V → Bool → List (VerdictEvent V)
  added v true = v ∷ []
  added v false = []

  written_line :
      (disk : Disk) (v : VerdictEvent V)
      → RoundTrips v
      → IsEnded disk
      → read_all codec (some (ended_lines disk ++ (rest_of disk <> codec.to_string v) ∷ [], ""))
        ≡ read_all codec disk ++ v ∷ []
  unfolding read_all
  written_line disk v t ended =
      subst
        (λ rest.
          read_lines codec ((ended_lines disk ++ (rest <> codec.to_string v) ∷ []) ++ [])
          ≡ read_lines codec (ended_lines disk ++ unended rest) ++ v ∷ [])
        (sym ended)
        (ap (λ text. read_lines codec ((ended_lines disk ++ text ∷ []) ++ []))
            (TextLemmas.nil-append (codec.to_string v))
          ∙ ap (read_lines codec) (append-nil (ended_lines disk ++ codec.to_string v ∷ []))
          ∙ read_lines-append (ended_lines disk) v t
          ∙ ap (λ lines. read_lines codec lines ++ v ∷ []) (sym (append-nil (ended_lines disk))))

  Appended-read_all :
      {seen : List String} {disk : Disk} {v : VerdictEvent V} {b : Bool}
      {r : List String × Disk × Result String Bool}
      → RoundTrips v
      → IsEnded disk
      → Appended seen disk v r
      → r.2 ≡ ok b
      → (read_all codec r.1 ≡ read_all codec disk ++ added v b) × IsEnded r.1
  Appended-read_all {disk = disk} {b = true} t ended (known k) h = ground arith
  Appended-read_all {disk = disk} {b = false} t ended (known k) h =
      (sym (append-nil (read_all codec disk)), ended)
  Appended-read_all t ended (failed f) h = ground arith
  Appended-read_all {disk = disk} {v = v} {b = true} t ended (appended f) h =
      (written_line disk v t ended, refl)
  Appended-read_all {b = false} t ended (appended f) h = ground arith

  -- When the file ends with a line break and the append does not answer with an error, the file reads
  -- as it did, with the verdict behind it exactly when the log answers that it appended, and it ends
  -- with a line break again.
  pub append-read_all :
      (written : Result (String × Disk) (Unit {0})) (seen : List String) (disk : Disk)
      (v : VerdictEvent V) (b : Bool)
      → RoundTrips v
      → IsEnded disk
      → let r = append codec written seen disk v in
        r.2 ≡ ok b → (read_all codec r.1 ≡ read_all codec disk ++ added v b) × IsEnded r.1
  append-read_all written seen disk v b t ended h =
      Appended-read_all t ended (append-Appended written seen disk v) h

  hashes-append :
      (h : String) (vs : List (VerdictEvent V)) (v : VerdictEvent V)
      → contains h (hashes (vs ++ v ∷ [])) ≡ (v.bundle_hash == h || contains h (hashes vs))
  hashes-append h [] v = ground (arith, eq_iff v.bundle_hash h, eq_iff h v.bundle_hash)
  hashes-append h (w ∷ vs) v = ground (arith, hashes-append h vs v)

  Appended-Tracks :
      {seen : List String} {disk : Disk} {v : VerdictEvent V} {b : Bool}
      {r : List String × Disk × Result String Bool}
      → RoundTrips v
      → IsEnded disk
      → Tracks seen disk
      → Appended seen disk v r
      → r.2 ≡ ok b
      → Tracks r.0 r.1
  unfolding Tracks
  Appended-Tracks t ended w (known k) h = w
  Appended-Tracks t ended w (failed f) h = ground arith
  Appended-Tracks {seen = seen} {disk = disk} {v = v} t ended w (appended f) h = λ k.
      contains-insert k v.bundle_hash seen
      ∙ ap (λ b. v.bundle_hash == k || b) (w k)
      ∙ sym (hashes-append k (read_all codec disk) v)
      ∙ ap (λ vs. contains k (hashes vs)) (sym (written_line disk v t ended))

  -- When the file ends with a line break and the log's set is in step with it, an append that does
  -- not answer with an error leaves them in step, and a log that is then opened on that file knows
  -- the same hashes.
  pub append-Tracks :
      (written : Result (String × Disk) (Unit {0})) (seen : List String) (disk : Disk)
      (v : VerdictEvent V) (b : Bool)
      → RoundTrips v
      → IsEnded disk
      → Tracks seen disk
      → let r = append codec written seen disk v in
        r.2 ≡ ok b
        → Tracks r.0 r.1 × ((h : String) → contains h (open_log codec r.1) ≡ contains h r.0)
  unfolding Tracks
  append-Tracks written seen disk v b t ended w h =
      let after = Appended-Tracks t ended w (append-Appended written seen disk v) h in
      (after, λ k. open_log-Tracks _ k ∙ sym (after k))

  Appended-contains :
      {seen : List String} {disk : Disk} {v : VerdictEvent V} {b : Bool}
      {r : List String × Disk × Result String Bool}
      → Appended seen disk v r
      → r.2 ≡ ok b
      → contains v.bundle_hash r.0 ≡ true
  Appended-contains (known k) h = k
  Appended-contains (failed f) h = ground arith
  Appended-contains {seen = seen} {v = v} (appended f) h = grind (
    arith,
    contains-insert v.bundle_hash v.bundle_hash seen,
    eq→str_eq v.bundle_hash v.bundle_hash refl,
  )

  append_known :
      (written : Result (String × Disk) (Unit {0})) (seen : List String) (disk : Disk)
      (v : VerdictEvent V)
      → contains v.bundle_hash seen ≡ true
      → append codec written seen disk v ≡ (seen, disk, ok false)
  unfolding append
  append_known written seen disk v k = rw (k, append) refl

  -- Once an append has answered without an error, every later verdict of that bundle, a different one
  -- included, is refused as known and not written: the set and the disk stay as they are, whatever
  -- the write would have answered.
  pub append_idempotent :
      (written again : Result (String × Disk) (Unit {0})) (seen : List String) (disk : Disk)
      (v v' : VerdictEvent V) (b : Bool)
      → v'.bundle_hash ≡ v.bundle_hash
      → (append codec written seen disk v).2 ≡ ok b
      → let r = append codec written seen disk v in
        append codec again r.0 r.1 v' ≡ (r.0, r.1, ok false)
  append_idempotent written again seen disk v v' b same h = append_known again _ _ v' (
      subst (λ k. contains k (append codec written seen disk v).0 ≡ true) (sym same)
        (Appended-contains (append-Appended written seen disk v) h))
