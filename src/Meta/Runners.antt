-- ===== src/Meta/Runners.antt =====
-- osbuild/meta.py: `RunnerInfo` and the runners of `Index`. `files` are the names of the files below
-- `runners/`, in the order of the directory. A digit is one of ASCII.
pub mod Best
pub mod Names
pub mod Order
use Prim.Native.Nat.{Ordering}
use Prim.Native.Char.{Char, code}
use Prim.Native.String
use Prim.Native.String.{[], ◌∷◌}
use osbuild.Prelude.{
  ℕ, ◌+◌, ◌*◌, ◌-◌, String, ◌==◌, Bool, true, false, ◌&&◌, Option, none, some, List, [], ◌∷◌,
  reverse, if◌then◌else◌, leb, truthy_name, Result, ok, err, value_error, ◌>>=◌,
}

pub record RunnerInfo : Type 0 where
  pub distro : String
  pub version : ℕ
  pub path : String

unfoldable pub chars : String → List Char
chars [] = []
chars (c ∷ s) = c ∷ chars s

unfoldable pub text : List Char → String
text [] = ""
text (c ∷ cs) = c ∷ text cs

abbrev pub is_digit : Char → Bool
is_digit c = leb 48 (code c) && leb (code c) 57

-- `int` of a text of digits
unfoldable pub decimal : ℕ → List Char → ℕ
decimal n [] = n
decimal n (c ∷ cs) = decimal (n * 10 + (code c - 48)) cs

-- The loop of `parse_name`: the first list is `name[: i + 1]`, last character first, and the second is
-- `name[i + 1 :]`. It stops at the first character of the name, whatever that is.
unfoldable pub scan : List Char → List Char → List Char × List Char
scan [] v = ([], v)
scan (c ∷ []) v = (c ∷ [], v)
scan (c ∷ next ∷ rest) v =
    let shorter = scan (next ∷ rest) (c ∷ v) in if is_digit c then shorter else (c ∷ next ∷ rest, v)

abbrev parsed : List Char × List Char → String × ℕ
parsed (kept, v) = (text (reverse kept), decimal 0 v)

unfoldable pub parse_name : String → String × ℕ
unfolding chars text decimal scan
parse_name name = parsed (scan (reverse (chars name)) [])

unfoldable pub from_path : String → String → RunnerInfo
unfolding parse_name
from_path folder name =
    let (distro, version) = parse_name name in
    record { distro = distro; version = version; path = String.◌++◌ folder (String.◌++◌ "/" name) }

abbrev pub le_text : String → String → Bool
le_text a b = elim (String.compare a b) [ Ordering.gt ↦ false | _ ↦ true ]

-- The order of the tuples `(r.distro, r.version)`.
abbrev pub le_runner : RunnerInfo → RunnerInfo → Bool
le_runner a b = elim (String.compare a.distro b.distro) [
  | Ordering.lt ↦ true
  | Ordering.eq ↦ leb a.version b.version
  | Ordering.gt ↦ false
]

-- Python's `sorted` keeps equal elements in their order.
unfoldable pub insert_runner : RunnerInfo → List RunnerInfo → List RunnerInfo
insert_runner r [] = r ∷ []
insert_runner r (x ∷ xs) = if le_runner r x then r ∷ x ∷ xs else x ∷ insert_runner r xs

unfoldable pub sort_runners : List RunnerInfo → List RunnerInfo
unfolding insert_runner
sort_runners [] = []
sort_runners (r ∷ rs) = insert_runner r (sort_runners rs)

unfoldable pub from_paths : String → List String → List RunnerInfo
from_paths folder [] = []
from_paths folder (name ∷ names) = from_path folder name ∷ from_paths folder names

-- The part of `Index` that knows the runners.
pub record Index : Type 0 where
  pub path : String
  pub files : List String
  pub runners : List RunnerInfo
  pub host_runner : Option RunnerInfo

abbrev read_runners : Index → List RunnerInfo → List RunnerInfo
read_runners index [] = sort_runners (from_paths (String.◌++◌ index.path "/runners") index.files)
read_runners index (r ∷ rs) = r ∷ rs

unfoldable pub of_distro : String → List RunnerInfo → List RunnerInfo
of_distro distro [] = []
of_distro distro (r ∷ rs) =
    let rest = of_distro distro rs in if r.distro == distro then r ∷ rest else rest

abbrev filtered : Option String → List RunnerInfo → List RunnerInfo
filtered none rs = rs
filtered (some distro) rs = if distro == "" then rs else of_distro distro rs

unfoldable pub list_runners : Option String → Index → List RunnerInfo × Index
unfolding sort_runners from_paths of_distro
list_runners distro index =
    let runners = read_runners index index.runners in
    (filtered distro runners, record index { runners = runners })

-- The loop of `detect_runner`.
unfoldable pub first_fit : ℕ → List RunnerInfo → Result RunnerInfo
first_fit version [] = err value_error
first_fit version (r ∷ rs) = if leb r.version version then ok r else first_fit version rs

unfoldable pub detect_runner : String → Index → Result RunnerInfo × Index
unfolding parse_name list_runners first_fit
detect_runner name index =
    let (distro, version) = parse_name name in
    let (candidates, index') = list_runners (some distro) index in
    (first_fit version (reverse candidates), index')

abbrev keep_host : Result RunnerInfo × Index → Result RunnerInfo × Index
keep_host (err e, index) = (err e, index)
keep_host (ok r, index) = (ok r, record index { host_runner = some r })

-- The index keeps the runner of the host; `osname` is what `osrelease.describe_os` gives.
unfoldable pub detect_host_runner : String → Index → Result RunnerInfo × Index
unfolding detect_runner
detect_host_runner osname index = elim index.host_runner [
  | some r ↦ (ok r, index)
  | none ↦ keep_host (detect_runner (String.◌++◌ "org.osbuild." osname) index)
]
