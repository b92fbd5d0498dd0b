-- ===== src/Interface/Requirements.antt =====
-- What a unit requires of a box (crates/interface/src/lib.rs, `url_scheme_and_host` and
-- `WorkUnit::requirements`).
use kiln_cli.Prelude.{
  eqb, if◌then◌else◌, String, ◌<>◌, ◌==◌, ◌≡◌, refl, ◌||◌, Option, none, some, List, [], ◌∷◌, ◌++◌,
}
use kiln_cli.Prelude.Text.{is_empty, is_blank, strip_prefix, split_once, take_until}
use kiln_cli.Prelude.Dict.{insert_all}
use kiln_cli.Interface.Types.{
  Json, Cell, ArtifactDelivery, inline, repository, WorkUnit, capability_id, method_id,
}

-- `rest.split(['/', ':']).next()` of what follows `<scheme>://`, unless that is empty
abbrev host_of : String → Option String
host_of rest =
    let host = take_until (λ c. eqb c b'/' || eqb c b':') rest in
    if is_empty host then none else some host

-- The loop over the remote schemes.
unfoldable pub remote_scheme : List String → String → Option (String × Option String)
unfolding strip_prefix take_until
remote_scheme [] url = none
remote_scheme (scheme ∷ schemes) url =
    let rest = remote_scheme schemes url in
    elim (strip_prefix (scheme <> "://") url) [
      | none ↦ rest
      | some tail ↦ some (if scheme == "http" then "https" else scheme, host_of tail)
    ]

-- The scp-like form `git@host:owner/repo.git`.
unfoldable pub scp_host : String → Option String
unfolding split_once
scp_host url = elim (split_once b':' url) [
  | none ↦ none
  | some (userhost, _) ↦ elim (split_once b'@' userhost) [
    | none ↦ none
    | some (_, host) ↦ some host
  ]
]

unfoldable pub url_scheme_and_host : String → String × Option String
unfolding remote_scheme scp_host
url_scheme_and_host url = elim (strip_prefix "file://" url) [
  | some _ ↦ ("file", none)
  | none ↦ elim (remote_scheme ("https" ∷ "http" ∷ "ssh" ∷ "git" ∷ []) url) [
    | some found ↦ found
    | none ↦ elim (scp_host url) [ some host ↦ ("ssh", some host) | none ↦ ("file", none) ]
  ]
]

abbrev forge_ids : Option String → List String
forge_ids none = []
forge_ids (some host) = ("forge:" <> host) ∷ []

-- What the declared delivery requires, in the order of the insertions.
unfoldable pub delivery_ids : ArtifactDelivery → List String
unfolding url_scheme_and_host
delivery_ids inline = "delivery:inline" ∷ []
delivery_ids (repository url base_ref integration) =
    let (scheme, host) = url_scheme_and_host url in
    "delivery:repository"
    ∷ ("url-scheme:" <> scheme)
    ∷ method_id integration.method
    ∷ forge_ids host

abbrev gate_ids : Option String → List String
gate_ids none = []
gate_ids (some kind) = ("gate:" <> kind) ∷ []

module _ {V : Type 0} ⦃json : Json V⦄ where
  -- `gate.get("kind").and_then(|k| k.as_str())`
  abbrev gate_kind : Option V → Option String
  gate_kind none = none
  gate_kind (some gate) = elim (json.field gate "kind") [ none ↦ none | some k ↦ json.as_str k ]

  unfoldable pub cell_requirements : Cell V → List String
  cell_requirements c =
      (if is_blank c.shape_language then [] else ("shape-language:" <> c.shape_language) ∷ [])
      ++ gate_ids (gate_kind c.gate)

  unfoldable pub graph_requirements : List (Cell V) → List String
  unfolding cell_requirements
  graph_requirements [] = []
  graph_requirements (c ∷ cs) = cell_requirements c ++ graph_requirements cs

  -- The set that the insertions build.
  unfoldable pub requirements : WorkUnit V → List String
  unfolding graph_requirements delivery_ids
  requirements u =
      insert_all
        (capability_id u.model_binding ∷ delivery_ids u.artifact_delivery
          ++ graph_requirements u.cell_graph)
        []

https_url : url_scheme_and_host "https://github.com/acme/widget.git" ≡ ("https", some "github.com")
unfolding url_scheme_and_host
https_url = refl

scp_url : url_scheme_and_host "git@github.com:acme/widget.git" ≡ ("ssh", some "github.com")
unfolding url_scheme_and_host
scp_url = refl
