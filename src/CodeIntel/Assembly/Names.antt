-- ===== src/CodeIntel/Assembly/Names.antt =====
-- assembly/context_assembler.py: the names of the chunks at each step of a query.
use praecepta.Prelude.{
  String, ◌≡◌, refl, sym, ap, subst, ◌∙◌, true, false, List, [], ◌∷◌, ◌++◌, Option, none, some,
  arith, eq_iff, eq_refl, Bool-cases, inl, inr,
}
use praecepta.Text.Membership.{mem, distinct, mem-append, distinct-snoc}
use praecepta.Dict.{Dict}
use praecepta.Errors.{ok, ok-inj, both_returned}
use praecepta.CodeIntel.{CodeChunk, SymbolSignature}
use praecepta.CodeIntel.Scores.{Scores, names}
use praecepta.CodeIntel.Files.{Files}
use praecepta.CodeIntel.Assembly.{
  Indexes, chunk_names, symbol_name_to_chunk, symbol_record_to_chunk, file_path_to_chunk,
}
use praecepta.CodeIntel.Assembly.Query.{
  Gathered, gather, get_symbol, direct_symbols, direct_files, resolve, resolve_file, build_chunks,
}

module _ {S : Type 0} where
  pub chunk_names-append :
      (xs ys : List (CodeChunk S)) → chunk_names (xs ++ ys) ≡ chunk_names xs ++ chunk_names ys
  chunk_names-append [] ys = refl
  chunk_names-append (c ∷ xs) ys = ap (λ ns. c.qualified_name ∷ ns) (chunk_names-append xs ys)

  -- No two chunks have one name, and each name has been seen.
  pub record IsGathered (g : Gathered S) : Type 0 where
    pub once : distinct (chunk_names g.0) ≡ true
    pub noted : (n : String) → mem n (chunk_names g.0) ≡ true → mem n g.1 ≡ true

  pub added-IsGathered :
      (chunks : List (CodeChunk S)) (seen : List String) (c : CodeChunk S)
      → mem c.qualified_name seen ≡ false
      → IsGathered (chunks, seen)
      → IsGathered (chunks ++ c ∷ [], c.qualified_name ∷ seen)
  unfolding mem
  added-IsGathered chunks seen c new h =
      let named = chunk_names-append chunks (c ∷ []) in
      record {
        once =
            ap distinct named
            ∙ ground (
              arith,
              distinct-snoc (chunk_names chunks) c.qualified_name,
              h.once,
              h.noted c.qualified_name,
              new,
            );
        noted = λ n m. ground (
          arith,
          ap (mem n) named,
          mem-append n (chunk_names chunks) (c.qualified_name ∷ []),
          h.noted n,
          m,
        );
      }

  pub gather-IsGathered :
      (o : Option (CodeChunk S)) (g : Gathered S) → IsGathered g → IsGathered (gather o g)
  unfolding gather
  gather-IsGathered none g h = h
  gather-IsGathered (some c) (chunks, seen) h = elim (Bool-cases (mem c.qualified_name seen)) [
    | inl e ↦ rw e h
    | inr e ↦ rw e (added-IsGathered chunks seen c e h)
  ]

-- In the index, the record of a name has that name.
abbrev pub RecordsNamed : {S : Type 0} → Indexes S → Type 0
RecordsNamed I =
    (n : String) (r : SymbolSignature) → I.get_symbol_record n ≡ some r → r.qualified_name ≡ n

module _ {S : Type 0} (F : Scores S) (files : Files) (repo_root : String) (I : Indexes S) where
  pub direct_symbols-IsGathered :
      (ns : List String) (g g' : Gathered S)
      → direct_symbols F files repo_root I ns g ≡ ok g'
      → IsGathered g
      → IsGathered g'
  unfolding direct_symbols
  direct_symbols-IsGathered [] g g' r h = subst IsGathered (ok-inj g g' r) h
  direct_symbols-IsGathered (n ∷ ns) g g' r h =
      let (c, got, rest) = both_returned (get_symbol F files repo_root I n) _ r in
      direct_symbols-IsGathered ns (gather c g) g' rest (gather-IsGathered c g h)

  pub direct_files-IsGathered :
      (ps : List String) (g g' : Gathered S)
      → direct_files F files repo_root I ps g ≡ ok g'
      → IsGathered g
      → IsGathered g'
  unfolding direct_files
  direct_files-IsGathered [] g g' r h = subst IsGathered (ok-inj g g' r) h
  direct_files-IsGathered (p ∷ ps) g g' r h =
      let (c, got, rest) = both_returned (file_path_to_chunk F files repo_root p) _ r in
      direct_files-IsGathered ps (gather c g) g' rest (gather-IsGathered c g h)

  -- A name that is the path of a file has it in the form in which the file's chunk is named.
  abbrev pub Relative : String → Type 0
  Relative n =
      (c : CodeChunk S)
      → file_path_to_chunk F files repo_root n ≡ ok (some c)
      → c.qualified_name ≡ n

  name-resolve_file :
      (n : String) (score : S) (o : Option (CodeChunk S))
      → ((c : CodeChunk S) → o ≡ some c → c.qualified_name ≡ n)
      → (resolve_file F files repo_root I n score o).qualified_name ≡ n
  unfolding resolve_file symbol_name_to_chunk
  name-resolve_file n score none relative = refl
  name-resolve_file n score (some c) relative = relative c refl

  name-resolve :
      (n : String) (score : S) (o : Option SymbolSignature) (c : CodeChunk S)
      → resolve F files repo_root I n score o ≡ ok c
      → I.get_symbol_record n ≡ o
      → RecordsNamed I
      → Relative n
      → c.qualified_name ≡ n
  unfolding resolve symbol_record_to_chunk
  name-resolve n score (some r) c done e named relative =
      sym (ap (λ (d : CodeChunk S). d.qualified_name) (ok-inj _ c done)) ∙ named n r e
  name-resolve n score none c done e named relative =
      let (o, found, last) = both_returned (file_path_to_chunk F files repo_root n) _ done in
      sym (ap (λ (d : CodeChunk S). d.qualified_name) (ok-inj _ c last))
      ∙ name-resolve_file n score o (λ d f. relative d (found ∙ ap ok f))

  -- what the chunks built from a ranking with a new first name are
  abbrev Split : String → S → Dict S → List String → List (CodeChunk S) → Type 0
  Split k x ranked seen cs =
      (c : CodeChunk S) × (rest : List (CodeChunk S)) × (c.qualified_name ≡ k)
      × (build_chunks F files repo_root I ranked (k ∷ seen) ≡ ok rest)
      × (cs ≡ c ∷ rest)

  built-Split :
      (k : String) (x : S) (ranked : Dict S) (seen : List String) (cs : List (CodeChunk S))
      → mem k seen ≡ false
      → build_chunks F files repo_root I ((k, x) ∷ ranked) seen ≡ ok cs
      → RecordsNamed I
      → Relative k
      → Split k x ranked seen cs
  unfolding build_chunks
  built-Split k x ranked seen cs new h named relative =
      let (c, one, h') =
        both_returned (resolve F files repo_root I k x (I.get_symbol_record k)) _ (rw new at h) in
      let (rest, two, last) =
        both_returned (build_chunks F files repo_root I ranked (k ∷ seen)) _ h' in
      (c, rest, name-resolve k x _ c one refl named relative, two, sym (ok-inj (c ∷ rest) cs last))

  pub build_chunks-new :
      (ranked : Dict S) (seen : List String) (cs : List (CodeChunk S))
      → build_chunks F files repo_root I ranked seen ≡ ok cs
      → RecordsNamed I
      → ((n : String) → mem n (names ranked) ≡ true → Relative n)
      → (n : String) → mem n (chunk_names cs) ≡ true
      → mem n seen ≡ false
  unfolding build_chunks mem
  build_chunks-new [] seen cs h named relative n m =
      cc (ap (λ d. mem n (chunk_names d)) (ok-inj [] cs h), m)
  build_chunks-new ((k, x) ∷ ranked) seen cs h named relative n m =
      let later : (i : String) → mem i (names ranked) ≡ true → Relative i =
        λ i w. relative i (ground (arith, w)) in
      elim (Bool-cases (mem k seen)) [
        | inl old ↦ build_chunks-new ranked seen cs (rw old at h) named later n m
        | inr new ↦
            let (c, rest, called, built, same) =
              built-Split k x ranked seen cs new h named (relative k (ground (arith, eq_refl k))) in
            ground (
              arith,
              ap (λ d. mem n (chunk_names d)) same,
              m,
              build_chunks-new ranked (k ∷ seen) rest built named later n,
              called,
              new,
              eq_iff k n,
            )
      ]

  pub distinct-build_chunks :
      (ranked : Dict S) (seen : List String) (cs : List (CodeChunk S))
      → build_chunks F files repo_root I ranked seen ≡ ok cs
      → RecordsNamed I
      → ((n : String) → mem n (names ranked) ≡ true → Relative n)
      → distinct (chunk_names cs) ≡ true
  unfolding build_chunks distinct mem
  distinct-build_chunks [] seen cs h named relative = rw (sym (ok-inj [] cs h)) refl
  distinct-build_chunks ((k, x) ∷ ranked) seen cs h named relative =
      let later : (i : String) → mem i (names ranked) ≡ true → Relative i =
        λ i w. relative i (ground (arith, w)) in
      elim (Bool-cases (mem k seen)) [
        | inl old ↦ distinct-build_chunks ranked seen cs (rw old at h) named later
        | inr new ↦
            let (c, rest, called, built, same) =
              built-Split k x ranked seen cs new h named (relative k (ground (arith, eq_refl k))) in
            ground (
              arith,
              ap (λ d. distinct (chunk_names d)) same,
              distinct-build_chunks ranked (k ∷ seen) rest built named later,
              build_chunks-new ranked (k ∷ seen) rest built named later k,
              eq_refl k,
              called,
            )
      ]
