-- ===== src/Dashboard/Table/Selection.antt =====
-- `selectedProxyIds` of engine/static/app.js: a `Set` of texts, kept in the order of insertion.
pub mod Laws
use proxy_redirector.Prelude.{Bool, true, false, List, [], ◌∷◌, ◌++◌, ◌||◌, if◌then◌else◌}
use proxy_redirector.Text.{Text, text_eq}

abbrev pub Ids : Type 0
Ids = List Text

-- `set.has(id)`
abbrev pub has : Ids → Text → Bool
has [] id = false
has (x ∷ xs) id = text_eq x id || has xs id

-- `set.add(id)`
unfoldable pub add : Ids → Text → Ids
add ids id = if has ids id then ids else ids ++ id ∷ []

-- `set.delete(id)`
unfoldable pub delete : Ids → Text → Ids
delete [] id = []
delete (x ∷ xs) id = let rest = delete xs id in if text_eq x id then rest else x ∷ rest

-- The `forEach` that adds the ids of a list.
unfoldable pub add_all : Ids → List Text → Ids
unfolding add
add_all ids [] = ids
add_all ids (x ∷ xs) = add_all (add ids x) xs
