-- ===== src/Boot/Config/Lines.antt =====
-- `read_config` of src/os.c on a file in which every value is there.
use os_to_read.Base.{
  ℕ, zero, suc, ◌<◌, ◌≡◌, refl, ap, sym, true, some, List, [], ◌∷◌, ◌++◌, ltb, length,
  length-append, get_elem?, arith, subst,
}
use os_to_read.Base.Int.{ℤ, pos}
use os_to_read.Base.Access.{ok, ◌>>=◌}
use os_to_read.Loader.{codes}
use os_to_read.Boot.{entry}
use os_to_read.Boot.Config.{
  Line, ConfigIo, Config, strcat, read_proc, read_line, or_else, nth_int, column, ld_args,
  read_sizes, read_lines, read_file, read_config,
}

-- What a line says: the name of a program, its start time and its priority.
pub record Row : Type 0 where
  pub name : List ℕ
  pub start_time : ℕ
  pub prio : ℕ

-- The row as the formatted read of its line converts it.
abbrev pub whole_line : Row → Line
whole_line r = record { start_time = some r.start_time; proc = some r.name; prio = some r.prio }

-- The row in the arrays of `ld_processes`.
abbrev pub filed : Row → List ℕ × ℕ × ℕ
filed r = (codes "input/proc/" ++ r.name, r.start_time, r.prio)

abbrev filed_all : List Row → List (List ℕ × ℕ × ℕ)
filed_all [] = []
filed_all (r ∷ rows) = filed r ∷ filed_all rows

module _ {F : Type 0} (io : ConfigIo F) where
  -- Behind the first stream come the sizes, and the second stream stands behind them.
  pub data Sizes : F → List ℕ → F → Type 0 where
    no_size : {f : F} → Sizes f [] f
    size :
        {f f' f'' : F} {n : ℕ} {sizes : List ℕ}
        → io.fscanf_size f ≡ (some n, f')
        → Sizes f' sizes f''
        → Sizes f (n ∷ sizes) f''

  -- Behind the stream come the lines of the rows, with names that fit the paths.
  pub data Lines : F → List Row → Type 0 where
    no_line : {f : F} → Lines f []
    line :
        {f f' : F} {r : Row} {rows : List Row}
        → io.fscanf_line f ≡ (whole_line r, f')
        → length (codes "input/proc/" ++ r.name) < 100
        → Lines f' rows
        → Lines f (r ∷ rows)

  -- The file at the path: the three numbers, the sizes of the memory and of four swap devices, the rows.
  pub record IsFile (path : List ℕ) (time_slot num_cpus : ℤ) (ram : ℕ) (swaps : List ℕ)
      (rows : List Row) : Type 0 where
    pub opened : F
    pub behind_three : F
    pub behind_sizes : F
    pub found : io.fopen path ≡ some opened
    pub three :
        io.fscanf_three opened ≡ (time_slot ∷ num_cpus ∷ pos (length rows) ∷ [], behind_three)
    pub sizes : Sizes behind_three (ram ∷ swaps) behind_sizes
    pub four : length swaps ≡ 4
    pub lines : Lines behind_sizes rows

  read_sizes_lem :
      {f f' : F} {sizes : List ℕ} → Sizes f sizes f' → read_sizes io (length sizes) f ≡ (sizes, f')
  unfolding read_sizes or_else
  read_sizes_lem no_size = refl
  read_sizes_lem (size e s) = rw (e, read_sizes_lem s) refl

  read_line_lem :
      (junk : ℕ × ℕ) (r : Row)
      → length (codes "input/proc/" ++ r.name) < 100
      → read_line junk (whole_line r) ≡ ok (filed r)
  unfolding read_line read_proc strcat or_else
  read_line_lem junk r h =
      let short : length r.name < 100 =
        omega (arith, h, length-append (codes "input/proc/") r.name) in
      let fits : ltb (length (codes "input/proc/" ++ r.name)) 100 ≡ true = ground (arith, h) in
      let named : ltb (length r.name) 100 ≡ true = ground (arith, short) in rw (named, fits) refl

  read_lines_lem :
      {f : F} {rows : List Row} (junk : ℕ → ℕ × ℕ)
      → Lines f rows
      → read_lines io (length rows) junk f ≡ ok (filed_all rows)
  unfolding read_lines
  read_lines_lem junk no_line = refl
  read_lines_lem {rows = r ∷ rows} junk (line e h l) =
      rw (e, read_line_lem (junk (length rows)) r h, read_lines_lem junk l) refl

  read_four :
      {f f' : F} {swaps : List ℕ}
      → Sizes f swaps f'
      → length swaps ≡ 4
      → read_sizes io 4 f ≡ (swaps, f')
  read_four {f} {f'} {swaps} s four =
      subst (λ n. read_sizes io n f ≡ (swaps, f')) four (read_sizes_lem s)

  -- The configuration of such a file.
  abbrev written : ℤ → ℤ → ℕ → List ℕ → List Row → Config
  written time_slot num_cpus ram swaps rows = record {
    time_slot = time_slot;
    num_cpus = num_cpus;
    num_processes = pos (length rows);
    memramsz = ram;
    memswpsz = swaps;
    entries = filed_all rows;
  }

  read_file-written :
      (junk : ℕ → ℕ × ℕ) (time_slot num_cpus : ℤ) (ram : ℕ) (swaps : List ℕ) (rows : List Row)
      (f : F) {f₁ f₂ : F}
      → io.fscanf_three f ≡ (time_slot ∷ num_cpus ∷ pos (length rows) ∷ [], f₁)
      → Sizes f₁ (ram ∷ swaps) f₂
      → length swaps ≡ 4
      → Lines f₂ rows
      → read_file io junk f ≡ ok (written time_slot num_cpus ram swaps rows)
  unfolding read_file nth_int or_else
  read_file-written junk time_slot num_cpus ram swaps rows f three (size e s) four l =
      let Reads : List ℕ × F → Type 0 = λ r.
        (read_lines io (length rows) junk r.1 >>= (λ entries.
          ok (record (written time_slot num_cpus ram r.0 rows) { entries = entries })))
        ≡ ok (written time_slot num_cpus ram swaps rows) in
      rw (three, e) (subst Reads (sym (read_four s four)) (rw (read_lines_lem junk l) refl))

entry-filed_all :
    {A : Type 0} (field : List ℕ × ℕ × ℕ → A) (rows : List Row) (i : ℕ) {r : Row}
    → get_elem? rows i ≡ some r
    → entry (column field (filed_all rows)) i ≡ ok (field (filed r))
unfolding entry column
entry-filed_all field [] i e = absurd (cc e)
entry-filed_all field (x ∷ rows) zero {r} e =
    let same : x ≡ r = cc e in ap (λ y. ok (field (filed y))) same
entry-filed_all field (x ∷ rows) (suc i) e = entry-filed_all field rows i e

-- A file that has the three numbers, the sizes of the memory and of four swap devices, and a whole line
-- for each process, with names that fit the paths behind `input/proc/`, is read as it was written: the
-- numbers and sizes are those of the file, and `ld_routine` finds at the index of a line the path, the
-- start time and the priority of that line, whatever the memory held before.
pub read_config-IsFile :
    {F : Type 0} (io : ConfigIo F) (junk : ℕ → ℕ × ℕ) (path : List ℕ) (time_slot num_cpus : ℤ)
    (ram : ℕ) (swaps : List ℕ) (rows : List Row)
    → IsFile io path time_slot num_cpus ram swaps rows
    → (c : Config) × (read_config io junk path ≡ ok c)
      × (c.time_slot ≡ time_slot)
      × (c.num_cpus ≡ num_cpus)
      × (c.memramsz ≡ ram)
      × (c.memswpsz ≡ swaps)
      × ((ld_args c).num_processes ≡ length rows)
      × ((i : ℕ) (r : Row)
          → get_elem? rows i ≡ some r
          → (entry (ld_args c).path i ≡ ok (codes "input/proc/" ++ r.name))
            × (entry (ld_args c).start_time i ≡ ok r.start_time)
            × (entry (ld_args c).prio i ≡ ok r.prio))
unfolding read_config ld_args
read_config-IsFile io junk path time_slot num_cpus ram swaps rows file = (
  written io time_slot num_cpus ram swaps rows,
  rw (file.found, read_config)
      (read_file-written io junk time_slot num_cpus ram swaps rows file.opened file.three file.sizes
        file.four file.lines),
  refl,
  refl,
  refl,
  refl,
  refl,
  (λ i r e. (
    entry-filed_all (λ x. x.0) rows i e,
    entry-filed_all (λ x. x.1) rows i e,
    entry-filed_all (λ x. x.2) rows i e,
  )),
)
