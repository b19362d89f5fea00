-- ===== src/HashRing.antt =====
-- The two ways to assign a key to a node (vsector/sharding/hash_ring.py). The hashes, `mmh3` and
-- SHA-256, are the parameter `hash`.
pub mod Rendezvous
mod Examples
use vsector.Base.{
  String, ℕ, Bool, true, false, Option, none, some, List, [], ◌∷◌, ◌++◌, ◌==◌, ltb, if◌then◌else◌,
  contains,
}
use Prim.Native.String.{◌++◌ as ◌+++◌}
use vsector.Errors.{Error}
use vsector.Exec.{Result, ok, err}

-- `RendezvousHash`: the nodes, and the operations on them.
abbrev pub RendezvousHash : Type 0
RendezvousHash = List String

unfoldable pub add_node : String → RendezvousHash → RendezvousHash
add_node node nodes = if contains node nodes then nodes else nodes ++ (node ∷ [])

-- `list.remove`: the first entry that is equal
unfoldable pub remove_node : String → RendezvousHash → RendezvousHash
remove_node node [] = []
remove_node node (n ∷ nodes) =
    let rest = remove_node node nodes in if n == node then nodes else n ∷ rest

-- `score > best_score`, where the first best score is -1
abbrev pub beats : ℕ → Option (ℕ × String) → Bool
beats score none = true
beats score (some (best_score, _)) = ltb best_score score

-- The loop of `get_node`.
unfoldable pub best_of : (String → ℕ) → Option (ℕ × String) → List String → Option (ℕ × String)
best_of score best [] = best
best_of score best (n ∷ nodes) =
    best_of score (if beats (score n) best then some (score n, n) else best) nodes

abbrev pub chosen : Option (ℕ × String) → Result String
chosen none = err (Error.other_error "no nodes in ring")
chosen (some (_, n)) = ok n

module _ (hash : String → ℕ) where
  abbrev pub weight : String → String → ℕ
  weight key n = hash (key +++ ("#" +++ n))

  unfoldable pub get_node : String → RendezvousHash → Result String
  unfolding best_of
  get_node key nodes = chosen (best_of (weight key) none nodes)
