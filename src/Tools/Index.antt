-- ===== src/Tools/Index.antt =====
-- `Bm25Index` of avs-tools/src/search.rs: what it stores. `tokenize` (Unicode lower case and
-- classes) is a parameter. The scores are floats and are not modelled.
use agentverse.Base.{
  ℕ, ◌+◌, ◌≡◌, refl, String, ◌==◌, string_eq, contains, to_set, contains-to_set, if◌then◌else◌,
  Option, none, some, List, [], ◌∷◌, ◌++◌, arith,
}
use agentverse.Base.Map.{Map, get, insert, get-insert, get-nil}

pub record Bm25Index : Type 0 where
  pub docs : List (String × List String)
  pub df : Map String ℕ

abbrev pub new : Bm25Index
new = record { docs = []; df = [] }

or_zero : Option ℕ → ℕ
or_zero none = 0
or_zero (some n) = n

-- `*df.entry(t).or_insert(0) += 1`
count_term : String → Map String ℕ → Map String ℕ
unfolding or_zero
count_term t df = insert t (or_zero (get t df) + 1) df

-- the loop over the tokens, each counted when `seen` has it for the first time
count_terms : List String → Map String ℕ → Map String ℕ
unfolding count_term
count_terms [] df = df
count_terms (t ∷ ts) df = count_terms ts (count_term t df)

module _ (tokenize : String → List String) where
  unfoldable pub add : String → String → Bm25Index → Bm25Index
  unfolding count_terms
  add id text index =
      let tokens = tokenize text in
      record { docs = index.docs ++ (id, tokens) ∷ []; df = count_terms (to_set tokens) index.df }

-- How many documents hold a term.
abbrev pub holding : String → List (String × List String) → ℕ
holding t [] = 0
holding t ((id, tokens) ∷ ds) = (if contains tokens t then 1 else 0) + holding t ds

unfoldable pub frequency : String → Bm25Index → ℕ
unfolding or_zero
frequency t index = or_zero (get t index.df)

holding-append :
    (t : String) (ds : List (String × List String)) (id : String) (tokens : List String)
    → holding t (ds ++ (id, tokens) ∷ []) ≡ holding t ds + (if contains tokens t then 1 else 0)
holding-append t [] id tokens = ground arith
holding-append t ((j, us) ∷ ds) id tokens = ground (arith, holding-append t ds id tokens)

occurrences : String → List String → ℕ
occurrences t [] = 0
occurrences t (u ∷ us) = (if u == t then 1 else 0) + occurrences t us

get-count_terms :
    (t : String) (ts : List String) (df : Map String ℕ)
    → or_zero (get t (count_terms ts df)) ≡ or_zero (get t df) + occurrences t ts
unfolding count_terms occurrences
get-count_terms t [] df = ground arith
get-count_terms t (u ∷ us) df =
    ground
      (arith, get-count_terms t us (count_term u df), get-insert t u (or_zero (get u df) + 1) df)

occurrences-to_set :
    (t : String) (ts : List String) → occurrences t (to_set ts) ≡ (if contains ts t then 1 else 0)
unfolding occurrences
occurrences-to_set t [] = refl
occurrences-to_set t (u ∷ us) =
    ground (arith, occurrences-to_set t us, contains-to_set us u, contains-to_set us t)

-- The document frequency of every term is the number of documents that hold it.
abbrev pub IsCounted : Bm25Index → Type 0
IsCounted index = (t : String) → frequency t index ≡ holding t index.docs

-- Indexing one more document keeps every document frequency exact.
pub add-IsCounted :
    (tokenize : String → List String) (id text : String) (index : Bm25Index)
    → IsCounted index
    → IsCounted (add tokenize id text index)
unfolding add frequency
add-IsCounted tokenize id text index counted t =
    let tokens = tokenize text in
    ground (
      arith,
      counted t,
      holding-append t index.docs id tokens,
      get-count_terms t (to_set tokens) index.df,
      occurrences-to_set t tokens,
    )

new-IsCounted : IsCounted new
unfolding frequency
new-IsCounted t = rw (get-nil t)
