-- ===== src/Path.antt =====
-- The paths of fs/fs.c, as strings in the memory of CString.
pub mod Component
mod Examples
use winx.Base.{
  ℕ, zero, suc, ◌+◌, ◌-◌, ◌*◌, ◌/◌, ◌%◌, ◌^◌, ◌≤◌, ◌<◌, min, bit_and, bit_or, ◌≡◌, refl, sym, ap,
  ap₂, subst, ◌∙◌, fun_ext, ◌≢◌, ◌↔◌, ◌⊎◌, inl, inr, Bool, true, false, not, ◌&&◌, ◌||◌, Option,
  none, some, List, [], ◌∷◌, ◌++◌, arith, ltb, leb, ◌==◌, if◌then◌else◌, Bool-cases, Option-cases,
  ==→eq, ==-refl, ne→==, lt→ltb, le→ltb, length, get_or, length-append, update, slice, Run, done,
  halted, unfinished, ◌>>=◌, ◌>>◌, assert, ℤ, pos, negsuc, le→leb, lt→leb, leb→le, leb→lt, ltb→lt,
  ltb→le, Ends, Ends->>=, Ends-assert, Ends-any,
}
use winx.CString.{Memory}

-- `while (*(++pathname) == '/')`: where `pathname` stands after the loop
pub skip_slashes : ℕ → Memory → ℕ → Run ℕ
skip_slashes zero m pathname = unfinished
skip_slashes (suc fuel) m pathname =
    let rest = skip_slashes fuel m (suc pathname) in
    if m (suc pathname) == 47 then rest else done (suc pathname)

-- `while (*pathname != '/' && *pathname != 0) *name_store++ = *pathname++;`
pub copy_name : ℕ → Memory → ℕ → ℕ → Run (Memory × ℕ)
copy_name zero m pathname name_store = unfinished
copy_name (suc fuel) m pathname name_store =
    let rest = copy_name fuel (update m name_store (m pathname)) (suc pathname) (suc name_store) in
    if not (m pathname == 47) && not (m pathname == 0) then rest else done (m, pathname)

-- The memory with the name stored, and the rest of the path; `none` is NULL.
pub path_parse : ℕ → Memory → ℕ → ℕ → Run (Memory × Option ℕ)
path_parse fuel m pathname name_store = do
  first ← if m pathname == 47 then skip_slashes fuel m pathname else done pathname
  (m', rest) ← copy_name fuel m first name_store
  done (m', (if m' rest == 0 then none else some rest))
