-- ===== src/Fs/Paths/Split.antt =====
-- What `split_parent` makes of a path, and the absolute paths that it takes for relative ones.
use barry_os.Common.{
  ◌≢◌, ◌≡◌, All, ◌++◌, none, ◌∷◌, [], length, some, ne→==, ◌≤◌, refl, write_at, replicate, ◌+◌,
  Bool, ◌==◌, ◌&&◌, false, true, arith, subst, if◌then◌else◌, not, append_assoc, ge→ltb,
}
use barry_os.Fs.Vnodes.{Vfs, max_name, dir, get_type}
use barry_os.Fs.Paths.{
  slash, trim_end, rsplit, split_parent, dir_and_name, ℕ, List, ◌++◌, resolve_from,
}

-- The text has no slash.
abbrev pub IsPlain : List ℕ → Type 0
IsPlain = All (λ c. c ≢ slash)

trim_end-plain : (a : List ℕ) → IsPlain a → trim_end a ≡ a
unfolding trim_end
trim_end-plain [] h = refl
trim_end-plain (c ∷ cs) h = rw (ne→== _ _ h.0, trim_end-plain cs h.1)

length-append_none : (a b : List ℕ) → length (a ++ b) ≡ 0 → b ≡ []
length-append_none [] [] e = refl
length-append_none [] (c ∷ b) e = absurd (omega arith)
length-append_none (a ∷ as_) b e = absurd (omega arith)

∧-false : (b : Bool) → b && false ≡ false
∧-false true = refl
∧-false false = refl

-- Slashes in front of a plain name stay.
trim_end-prefix : (a b : List ℕ) → IsPlain b → b ≢ [] → trim_end (a ++ b) ≡ a ++ b
unfolding trim_end
trim_end-prefix [] b h ne = trim_end-plain b h
trim_end-prefix (c ∷ cs) b h ne = rw (
  trim_end-prefix cs b h ne,
  ne→== (length (cs ++ b)) 0 (λ e. ne (length-append_none cs b e)),
  ∧-false (c == slash),
)

rsplit-plain : (a : List ℕ) → IsPlain a → rsplit a ≡ none
unfolding rsplit
rsplit-plain [] h = refl
rsplit-plain (c ∷ cs) h = rw (rsplit-plain cs h.1, ne→== _ _ h.0)

rsplit-append : (a b : List ℕ) → IsPlain b → rsplit (a ++ slash ∷ b) ≡ some (a, b)
unfolding rsplit
rsplit-append [] b h = rw (rsplit-plain b h)
rsplit-append (c ∷ cs) b h = rw (rsplit-append cs b h)

append-some : (a b : List ℕ) → b ≢ [] → length (a ++ b) ≢ 0
append-some a b ne e = ne (length-append_none a b e)

-- What is stored for a name.
abbrev pub named : List ℕ → List ℕ
named name = write_at (replicate (max_name + 1) 0) 0 name

module _ (s : Vfs) (cwd : ℕ) (name : List ℕ) (some_name : name ≢ [])
    (short : length name ≤ max_name) where
  cut :
      (path trimmed d : List ℕ) (parent : ℕ)
      → trim_end path ≡ trimmed
      → length trimmed ≢ 0
      → dir_and_name trimmed (rsplit trimmed) ≡ (d, name)
      → (if length d == 0 then cwd else resolve_from s cwd d) ≡ parent
      → not (length d == 0) && parent == 0 ≡ false
      → get_type s parent ≡ some dir
      → split_parent s cwd path ≡ some (parent, named name, length name)
  unfolding split_parent
  cut path trimmed d parent e ne parts up there is_dir =
      rw
        (
          e,
          parts,
          ne→== (length trimmed) 0 ne,
          up,
          there,
          is_dir,
          ne→== (length name) 0 (append-some [] name some_name),
          ge→ltb max_name (length name) short,
        )
        refl

  module _ (plain : IsPlain name) where
    -- A name with no slash, not empty and not too long, is placed in the working directory, if
    -- that is a directory.
    pub split_parent-plain :
        get_type s cwd ≡ some dir → split_parent s cwd name ≡ some (cwd, named name, length name)
    split_parent-plain is_dir =
        cut name name [] cwd (trim_end-plain name plain) (append-some [] name some_name)
          (rw (rsplit-plain name plain) refl) refl refl is_dir

    trim_end-cut : (d : List ℕ) → trim_end (d ++ slash ∷ name) ≡ d ++ slash ∷ name
    trim_end-cut d =
        subst (λ l. trim_end l ≡ l) (append_assoc d (slash ∷ []) name)
          (trim_end-prefix (d ++ slash ∷ []) name plain some_name)

    -- A path `d/name`, with `d` not empty and `name` a plain name that is not too long, is cut at
    -- its last slash, and `d` is resolved, if it leads to a directory.
    pub split_parent-append :
        (c : ℕ) (d : List ℕ)
        → resolve_from s cwd (c ∷ d) ≢ 0
        → get_type s (resolve_from s cwd (c ∷ d)) ≡ some dir
        → split_parent s cwd ((c ∷ d) ++ slash ∷ name)
          ≡ some (resolve_from s cwd (c ∷ d), named name, length name)
    split_parent-append c d there is_dir =
        let full = ne→== (length (c ∷ d)) 0 (append-some [] (c ∷ d) (λ e. cc)) in
        cut ((c ∷ d) ++ slash ∷ name) ((c ∷ d) ++ slash ∷ name) (c ∷ d) (resolve_from s cwd (c ∷ d))
          (trim_end-cut (c ∷ d)) (append-some (c ∷ d) (slash ∷ name) (λ e. cc))
          (rw (rsplit-append (c ∷ d) name plain) refl) (rw (full) refl)
          (rw (full, ne→== _ _ there) refl) is_dir

    -- The path `/name` of a plain name that is not too long is placed in the working directory, if
    -- that is a directory, and not in the root.
    pub split_parent-root :
        get_type s cwd ≡ some dir
        → split_parent s cwd (slash ∷ name) ≡ some (cwd, named name, length name)
    split_parent-root is_dir =
        cut (slash ∷ name) (slash ∷ name) [] cwd (trim_end-cut [])
          (append-some [] (slash ∷ name) (λ e. cc)) (rw (rsplit-append [] name plain) refl) refl
          refl is_dir
