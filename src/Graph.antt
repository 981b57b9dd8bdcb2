-- ===== src/Graph.antt =====
-- The object store of the ActiveGraph runtime, which is not part of this repository: the packs
-- reach it only through these calls. `G` is a state of the runtime's graph, `O` the objects that
-- the modelled code reads and writes, keyed by their ids; an id is a number here.
pub mod Laws
pub mod Listed
use activegraph_packs.Base.{
  ℕ, String, Option, none, some, List, [], ◌∷◌, ◌++◌, ◌≡◌, get_or, lookup, update,
}

-- A record of calls and of what the packs rely on.
pub record Graph (O G : Type 0) : Type 0 where
  -- `graph.objects()`, in the order of creation
  pub objects : G → List (ℕ × O)
  -- `graph.get_object(id)`
  pub get_object : G → ℕ → Option O
  -- `graph.add_object(type, data)` at a type that is registered: the new id
  pub add_object : G → O → ℕ × G
  -- `graph.patch_object(id, changes)`; `none` where it raises
  pub patch_object : G → ℕ → (O → O) → Option G
  -- `graph.add_relation(source, target, type)`; `none` where it raises
  pub add_relation : G → ℕ → ℕ → String → Option G
  pub get_object-objects : (g : G) (k : ℕ) → get_object g k ≡ lookup k (objects g)
  pub objects-add_object :
      (g : G) (o : O) → objects (add_object g o).1 ≡ objects g ++ ((add_object g o).0, o) ∷ []
  -- ids are never reused
  pub add_object_fresh : (g : G) (o : O) → lookup (add_object g o).0 (objects g) ≡ none
  pub objects-patch_object :
      (g g' : G) (k : ℕ) (f : O → O)
      → patch_object g k f ≡ some g'
      → objects g' ≡ update k f (objects g)
  -- a patch raises only where there is no such object
  pub patch_object-eq-none :
      (g : G) (k : ℕ) (f : O → O) → patch_object g k f ≡ none → lookup k (objects g) ≡ none
  pub objects-add_relation :
      (g g' : G) (a b : ℕ) (t : String) → add_relation g a b t ≡ some g' → objects g' ≡ objects g

module _ {O G : Type 0} (graph : Graph O G) where
  -- `try: graph.patch_object(…)` with `except Exception: pass`
  abbrev pub try_patch : G → ℕ → (O → O) → G
  try_patch g k f = get_or g (graph.patch_object g k f)

  -- `try: graph.add_relation(…)` with `except Exception: pass`
  abbrev pub try_relate : G → ℕ → ℕ → String → G
  try_relate g a b t = get_or g (graph.add_relation g a b t)

-- An event of the log: its id, and the id of the object whose creation it records.
pub record LogEvent : Type 0 where
  pub id : String
  pub created : Option String

-- The event log of the same runtime: `graph.events`, and `graph.emit` of an event of the pack's own,
-- which returns the event's id and changes no object.
pub record EventLog {O G : Type 0} (graph : Graph O G) (E : Type 0) : Type 0 where
  pub events : G → List LogEvent
  pub emit : G → E → String × G
  pub objects-emit : (g : G) (e : E) → graph.objects (emit g e).1 ≡ graph.objects g
