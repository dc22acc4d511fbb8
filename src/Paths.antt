-- ===== src/Paths.antt =====
-- src/fs/fs.c: the names of a path.
-- A pointer into a path is the list of the characters from there to the zero byte. The buffer of a
-- name is a function of the index; a write behind its 16 bytes, which C leaves undefined, counts as
-- panic. The loop of path_depth_cnt runs on fuel: two more than the length of the path are enough.
pub mod Parse
pub mod Depth
mod Tests
use tros.Prelude.{
  ℕ, zero, suc, ◌+◌, Bool, true, false, Option, none, some, List, [], ◌∷◌, ltb, ◌==◌, if◌then◌else◌,
  Run, ok, panic, out_of_fuel, ◌>>=◌, add32,
}

-- The character that separates names, and MAX_FILE_NAME_LEN.
abbrev pub slash : ℕ
slash = 47

abbrev pub max_file_name_len : ℕ
max_file_name_len = 16

abbrev pub Name : Type 0
Name = ℕ → ℕ

abbrev pub write_char : Name → (index char : ℕ) → Name
write_char name index char i = if index == i then char else name i

-- The slashes at the beginning are skipped.
unfoldable pub skip_slashes : List ℕ → List ℕ
skip_slashes [] = []
skip_slashes (c ∷ cs) = let rest = skip_slashes cs in if c == slash then rest else c ∷ cs

-- while (*pathname != '/' && *pathname != 0) { *name_store++ = *pathname++; }
unfoldable pub copy_name : (path : List ℕ) (name_store : Name) (index : ℕ) → Run (Name × List ℕ)
copy_name [] name index = ok (name, [])
copy_name (c ∷ cs) name index =
    let rest = copy_name cs (write_char name index c) (index + 1) in
    if c == slash then ok (name, c ∷ cs) else if ltb index max_file_name_len then rest else panic

-- NULL at the end of the path, and otherwise the pointer.
abbrev pub or_null : List ℕ → Option (List ℕ)
or_null [] = none
or_null (c ∷ cs) = some (c ∷ cs)

unfoldable pub path_parse : (pathname : List ℕ) (name_store : Name) → Run (Name × Option (List ℕ))
unfolding copy_name skip_slashes
path_parse pathname name_store = do
  parsed ← copy_name (skip_slashes pathname) name_store 0
  ok (parsed.0, or_null parsed.1)

-- memset(name, 0, MAX_FILE_NAME_LEN);
abbrev pub clear_name : Name → Name
clear_name name i = if ltb i max_file_name_len then 0 else name i

-- if (p) { p = path_parse(p, name); }
unfoldable pub parse_next : (p : Option (List ℕ)) → Name → Run (Name × Option (List ℕ))
unfolding path_parse
parse_next none name = ok (name, none)
parse_next (some p) name = path_parse p name

unfoldable pub depth_loop : (fuel : ℕ) → Name → (p : Option (List ℕ)) (depth : ℕ) → Run ℕ
unfolding parse_next
depth_loop zero name p depth = out_of_fuel
depth_loop (suc fuel) name p depth =
    let rest = parse_next p (clear_name name) >>= λ parsed.
    depth_loop fuel parsed.0 parsed.1 (add32 depth 1) in
    if name 0 == 0 then ok depth else rest

-- The depth of a path that is not NULL; `name` is what the buffer holds before.
unfoldable pub path_depth_cnt : (fuel : ℕ) (pathname : List ℕ) (name : Name) → Run ℕ
unfolding depth_loop path_parse
path_depth_cnt fuel pathname name = do
  parsed ← path_parse pathname name
  depth_loop fuel parsed.0 parsed.1 0
