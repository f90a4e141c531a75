-- ===== src/Bench/Host.antt =====
-- The machine that the scripts of artifact/ drive: what they do to it is a list of events, and what
-- it answers is a function of the events so far.
use anonymous_repo.Prelude.{
  ℕ, Bool, Option, none, some, List, ◌∷◌, Error, value_error, Result, ok, err,
}
use anonymous_repo.Text.Str.{Text}
use anonymous_repo.Text.Edit.{universal_newlines}

abbrev pub Bytes : Type 0
Bytes = List ℕ

-- The `env` of a started program: the script's own, or one variable alone.
abbrev pub Env : Type 0
Env = Option (Text × Text)

pub data Event : Type 0 where
  -- `print(t)`
  printed : Text → Event
  -- `os.system(cmd)`
  system : Text → Event
  -- `time.sleep(t)`, in milliseconds
  slept : ℕ → Event
  -- `subprocess.run(argv)`, or `Popen(argv)` with `communicate()` at once
  completed : List Text → Env → Event
  -- `Popen(argv)` and `create_subprocess_exec(*argv)`
  started : List Text → Env → Event
  -- The calls of the program that was started last: `poll()`, `wait(timeout=t)` in milliseconds,
  -- `terminate()`, `kill()`, `wait()` and `communicate()`.
  polled : Event
  awaited : ℕ → Event
  terminated killed waited communicated : Event

-- The events, the last one first.
abbrev pub Trace : Type 0
Trace = List Event

-- The answers of the machine after a trace, and `bytes.decode("utf-8")`, which fails with `none`.
pub record Host : Type 0 where
  -- `time.time()` in milliseconds
  pub now : Trace → ℕ
  -- What `poll()` and `wait(timeout=t)` have found: the program has finished.
  pub finished : Trace → Bool
  pub pid : Trace → ℕ
  pub stdout : Trace → Bytes
  pub stderr : Trace → Bytes
  pub decode : Bytes → Option Text

abbrev pub Action {ℓ} : Type ℓ → Type ℓ
Action A = Trace → Result A × Trace

abbrev pub next_action {ℓ κ} :
    {A : Type ℓ} {B : Type κ} → Result A × Trace → (A → Action B) → Result B × Trace
next_action (err e, es) f = (err e, es)
next_action (ok a, es) f = f a es

infixl 5 ◌>>=◌ ◌>>◌
abbrev pub ◌>>=◌ {ℓ κ} : {A : Type ℓ} {B : Type κ} → Action A → (A → Action B) → Action B
◌>>=◌ m f es = next_action (m es) f

abbrev pub ◌>>◌ {ℓ} : {B : Type ℓ} → Action (Unit {0}) → Action B → Action B
◌>>◌ m k es = next_action (m es) (λ _. k)

abbrev pub pure {ℓ} : {A : Type ℓ} → A → Action A
pure a es = (ok a, es)

abbrev pub fail {ℓ} : {A : Type ℓ} → Error → Action A
fail e es = (err e, es)

abbrev pub emit : Event → Action (Unit {0})
emit e es = (ok tt, e ∷ es)

-- A question to the machine.
abbrev pub ask {ℓ} : {A : Type ℓ} → (Trace → A) → Action A
ask f es = (ok (f es), es)

-- `output = b.decode("utf-8")`, with `except: output = b`
pub data Output : Type 0 where
  str : Text → Output
  raw : Bytes → Output

unfoldable pub decode_or_raw : Host → Bytes → Output
decode_or_raw h b = elim (h.decode b) [ none ↦ raw b | some t ↦ str t ]

abbrev pub or_fail : Option Text → Action Text
or_fail none = fail value_error
or_fail (some t) = pure t

-- `b.decode("utf-8")`
unfoldable pub decode_or_raise : Host → Bytes → Action Text
decode_or_raise h b = or_fail (h.decode b)

-- `proc.communicate()` of a program started with `text=True`: both streams are decoded.
unfoldable pub communicate : Host → Action (Text × Text)
unfolding decode_or_raise universal_newlines
communicate h = do
  emit communicated
  out ← ask h.stdout
  errors ← ask h.stderr
  out_text ← decode_or_raise h out
  error_text ← decode_or_raise h errors
  pure (universal_newlines out_text, universal_newlines error_text)
