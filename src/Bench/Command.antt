-- ===== src/Bench/Command.antt =====
-- artifact/common_util.py: the constants, and the pieces of the command lines that the runs share.
use anonymous_repo.Prelude.{ℕ, List, [], ◌∷◌, ◌++◌, map, value_error, Bool}
use anonymous_repo.Text.Str.{Text, codes, split_on}
use anonymous_repo.Text.Edit.{join, replace, is_in}
use anonymous_repo.Bench.Host.{Action, pure, fail}

unfoldable pub pwd : Text
pwd = codes "/mnt1/MVVM"

unfoldable pub pwd_mac : Text
pwd_mac = codes "/Users/victoryang00/Documents/project/MVVM-bench/"

unfoldable pub slowtier : Text
slowtier = codes "epyc"

unfoldable pub burst : Text
burst = codes "mac"

abbrev pub trial : ℕ
trial = 2

unfoldable pub list_of_arg : List Text
list_of_arg = codes "OMP_NUM_THREADS=1" ∷ codes "OMP_NUM_THREADS=2" ∷ codes "OMP_NUM_THREADS=4" ∷ []

unfoldable pub aot_variant : List Text
aot_variant =
    codes ".aot"
    ∷ codes "-pure.aot"
    ∷ codes "-stack.aot"
    ∷ codes "-ckpt-every-dirty.aot"
    ∷ codes "-ckpt-loop.aot"
    ∷ codes "-ckpt-loop-counter.aot"
    ∷ []

unfoldable pub aot_variant_freq : List Text
aot_variant_freq =
    codes "-ckpt-loop-counter-1.aot"
    ∷ codes "-ckpt-loop-counter-4.aot"
    ∷ codes "-ckpt-loop-counter-8.aot"
    ∷ codes "-ckpt-loop-counter-16.aot"
    ∷ codes "-ckpt-loop-counter-20.aot"
    ∷ codes "-ckpt-loop-counter-30.aot"
    ∷ codes "-ckpt-loop-pgo.aot"
    ∷ codes ".aot"
    ∷ codes "-pure.aot"
    ∷ []

unfoldable pub contains_result : Text → Text → Bool
unfolding is_in
contains_result output result = is_in result output

-- `' '.join(['-a ' + str(x) for x in arg])`
unfoldable pub flags : List Text → Text
unfolding join
flags arg = join (codes " ") (map (λ x. codes "-a " ++ x) arg)

-- `' '.join(arg)`
unfoldable pub spaced : List Text → Text
unfolding join
spaced arg = join (codes " ") arg

-- `exec = " ".join([env] + [aot_file] + arg)`
unfoldable pub exec_name : Text → Text → List Text → Text
unfolding spaced
exec_name env aot_file arg = spaced (env ∷ aot_file ∷ arg)

-- `aot_file.replace(".aot", "")`
unfoldable pub native_name : Text → Text
unfolding replace
native_name aot_file = replace (codes ".aot") [] aot_file

-- `dict([env.split("=")])`, which raises ValueError unless there are two parts.
unfoldable pub pair_of : List Text → Action (Text × Text)
pair_of (name ∷ value ∷ []) = pure (name, value)
pair_of _ = fail value_error

unfoldable pub env_arg : Text → Action (Text × Text)
unfolding pair_of split_on
env_arg env = pair_of (split_on b'=' env)
