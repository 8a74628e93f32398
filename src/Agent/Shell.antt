-- ===== src/Agent/Shell.antt =====
-- The commands that the agent runs, `exec.CommandContext(...).CombinedOutput()`. What a command
-- prints and whether it fails are arguments: functions of the number of commands run so far.
use hosting.Common.{ℕ, ◌+◌, String, Bytes, codes, Option, none, some, List, [], ◌∷◌, ◌++◌}
use hosting.Common.Ascii.{split}
use hosting.Common.Result.{Result, ok, err}

-- A program, its arguments, and its standard input where it is set.
pub record Command : Type 0 where
  pub program : String
  pub args : List Bytes
  pub stdin : Option Bytes

-- `failure` is the text of the error that the run gave.
pub record Outcome : Type 0 where
  pub output : Bytes
  pub failure : Option Bytes

abbrev pub Host : Type 0
Host = ℕ → Command → Outcome

-- `table` is what `tableOnce` has left: the result of the one run of `ensureTable`.
pub record Shell : Type 0 where
  pub count : ℕ
  pub ran : List Command
  pub table : Option (Result (Unit {0}))

abbrev pub Sh : Type 0 → Type 0
Sh A = Shell → Result A × Shell

abbrev pub pure : {A : Type 0} → A → Sh A
pure a s = (ok a, s)

abbrev pub raise : {A : Type 0} → Bytes → Sh A
raise text s = (err text, s)

abbrev pub continue : {A B : Type 0} → Result A → (A → Sh B) → Sh B
continue (ok a) f s = f a s
continue (err text) f s = (err text, s)

infixl 5 ◌>>=◌ ◌>>◌
unfoldable pub ◌>>=◌ : {A B : Type 0} → Sh A → (A → Sh B) → Sh B
◌>>=◌ m f s = let (r, s') = m s in continue r f s'

abbrev pub ◌>>◌ : {B : Type 0} → Sh (Unit {0}) → Sh B → Sh B
m >> k = m >>= λ _. k

-- The arguments of a command, one for each word of the text.
abbrev pub words : String → List Bytes
words text = split b' ' (codes text)

abbrev pub nft : List Bytes → Command
nft args = record { program = "nft"; args = args; stdin = none }

-- `nft -f -`, the script on the standard input.
abbrev pub nft_script : Bytes → Command
nft_script script = record { program = "nft"; args = words "-f -"; stdin = some script }

abbrev pub ip : List Bytes → Command
ip args = record { program = "ip"; args = args; stdin = none }

abbrev pub after : Command → Shell → Shell
after c s = record s { count = s.count + 1; ran = s.ran ++ (c ∷ []) }

-- `fmt.Errorf("%s: %s: %w", what, out, err)`
abbrev pub failure_text : Bytes → Bytes → Bytes → Bytes
failure_text what output text = what ++ (codes ": " ++ (output ++ (codes ": " ++ text)))

abbrev pub succeeded : Bytes → Outcome → Sh (Unit {0})
succeeded what out = elim out.failure [
  | none ↦ pure tt
  | some text ↦ raise (failure_text what out.output text)
]

module _ (host : Host) where
  -- One run; its outcome is a value, also where the command fails.
  unfoldable pub run : Command → Sh Outcome
  run c s = (ok (host s.count c), after c s)

  -- A run that must succeed.
  unfoldable pub must : Bytes → Command → Sh (Unit {0})
  unfolding run
  must what c = do out ← run c; succeeded what out
