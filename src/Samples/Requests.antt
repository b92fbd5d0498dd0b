-- ===== src/Samples/Requests.antt =====
-- The theorem on the conformance runner, applied to a type of JSON values.
use kiln_cli.Switch
use kiln_cli.Conform.{emit, Values, field_of, reject}
use kiln_cli.Queue
use kiln_cli.Prelude.{
  if◌then◌else◌, ℕ, String, ◌==◌, ◌≡◌, refl, ap, Bool, Option, none, some, List, [], ◌∷◌, arith,
}
use kiln_cli.Prelude.Result.{ok}
use kiln_cli.Queue.{escalated, enqueued, escalate}
use kiln_cli.Switch.{queue, mode_changed, throw_switch}
use kiln_cli.Conform.Requests.{outcome}
use kiln_cli.Conform.Replays.{AreFaithful, decision_value}
use kiln_cli.Conform.Replays.Written.{unit_lifecycle, box_control, event_value, request}
use kiln_cli.Conform.Replays.Outcomes.{outcome-request}

-- `arr` and `obj` hold their parts as lists of their own.
mutual
  data Tree : Type 0 where
    null : Tree
    str : String → Tree
    bool : Bool → Tree
    num : ℕ → Tree
    arr : Items → Tree
    obj : Fields → Tree

  data Items : Type 0 where
    nil : Items
    cons : Tree → Items → Items

  data Fields : Type 0 where
    end : Fields
    field : String → Tree → Fields → Fields

abbrev items : List Tree → Items
items [] = nil
items (v ∷ vs) = cons v (items vs)

abbrev list_of : Items → List Tree
list_of nil = []
list_of (cons v vs) = v ∷ list_of vs

abbrev fields : List (String × Tree) → Fields
fields [] = end
fields ((k, v) ∷ fs) = field k v (fields fs)

abbrev find : String → Fields → Option Tree
find k end = none
find k (field j v fs) = if j == k then some v else find k fs

abbrev str_of : Tree → Option String
str_of (str s) = some s
str_of _ = none

abbrev bool_in : Tree → Option Bool
bool_in (bool b) = some b
bool_in _ = none

abbrev num_of : Tree → Option ℕ
num_of (num n) = some n
num_of _ = none

abbrev arr_of : Tree → Option (List Tree)
arr_of (arr vs) = some (list_of vs)
arr_of _ = none

abbrev find_in : Tree → String → Option Tree
find_in (obj fs) k = find k fs
find_in _ k = none

abbrev trees : Values Tree
trees = record {
  as_str = str_of;
  as_bool = bool_in;
  as_u64 = num_of;
  as_array = arr_of;
  get = find_in;
  null = null;
  string = str;
  boolean = bool;
  number = num;
  array = λ vs. arr (items vs);
  object = λ fs. obj (fields fs);
}

list_of-items : (vs : List Tree) → list_of (items vs) ≡ vs
list_of-items [] = refl
list_of-items (v ∷ vs) = ap (λ us. v ∷ us) (list_of-items vs)

find-fields : (fs : List (String × Tree)) (k : String) → find k (fields fs) ≡ field_of fs k
find-fields [] k = refl
find-fields ((j, v) ∷ fs) k = ap (λ r. if j == k then some v else r) (find-fields fs k)

trees-AreFaithful : AreFaithful trees
trees-AreFaithful = record {
  of_string = λ s. refl;
  of_object = λ fs. refl;
  of_field = λ fs k d. find-fields fs k;
  of_boolean = λ b. refl;
  of_number = λ n h. refl;
  of_array = λ vs. ap some (list_of-items vs);
}

outcome-request_example :
    outcome trees "work-unit-decider"
      (request trees unit_lifecycle (enqueued ∷ escalated ∷ []) (escalate 2))
    ≡ decision_value trees (event_value trees unit_lifecycle) (ok (escalated ∷ []))
unfolding Queue.decide Queue.evolve emit
outcome-request_example =
    outcome-request trees trees-AreFaithful unit_lifecycle (enqueued ∷ escalated ∷ []) (escalate 2)
      (omega arith)

-- A mode that the box is in is refused.
box_request :
    outcome trees "box-decider"
      (request trees box_control (mode_changed queue ∷ []) (throw_switch queue))
    ≡ reject trees "inv-distinct-mode"
unfolding outcome Switch.decide Switch.evolve
box_request = refl
