-- ===== src/CodeIntel/Assembly/Outcomes.antt =====
-- assembly/context_assembler.py: what a query ends in.
use praecepta.Prelude.{◌⊎◌, ℕ, String, ◌≡◌}
use praecepta.Prelude.Int.{ℤ}
use praecepta.Dict.{Dict}
use praecepta.Errors.{Error, Result, ok, err, budget_exceeded, unicode_error}
use praecepta.CodeIntel.Scores.{Scores}
use praecepta.CodeIntel.Files.{Files, undecodable}
use praecepta.CodeIntel.Assembly.{Indexes}

-- Why a query with a criterion may raise: the budget is too small, counting the tokens of a text raises,
-- looking whether a path exists raises, or a file is not UTF-8.
pub data Cause (files : Files) (encode : String → Result ℕ) (budget : ℤ) : Error → Type 0 where
  over_budget : (n : ℕ) → Cause files encode budget (budget_exceeded budget n)
  uncounted : {x : Error} (text : String) → encode text ≡ err x → Cause files encode budget x
  unlooked : {x : Error} (path : String) → files.exists path ≡ err x → Cause files encode budget x
  undecoded :
      (path : String) → files.read_text path ≡ undecodable → Cause files encode budget unicode_error

module _ (files : Files) (encode : String → Result ℕ) (budget : ℤ) where
  abbrev pub Explained : {V : Type 0} → Result V → Type 0
  Explained {V} r =
      ((v : V) × (r ≡ ok v)) ⊎ ((x : Error) × (r ≡ err x) × Cause files encode budget x)

module _ {S : Type 0} (F : Scores S) (files : Files) (repo_root : String) (I : Indexes S)
    (encode : String → Result ℕ) (budget : ℤ) where
  abbrev Fine : {V : Type 0} → Result V → Type 0
  Fine r = Explained files encode budget r
