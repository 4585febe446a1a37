-- ===== src/Ufs/Spec/Reading.antt =====
-- `ufs_read` keeps its promise.
use sysprog_solutions.Common.{
  ℕ, suc, [], ◌∷◌, some, true, List, inl, inr, get_elem?, ◌≡◌, ok, length, ◌++◌, drop, ◌<◌, arith,
  ◌≤◌, ◌%◌, ◌/◌, ◌-◌, ◌∙◌, ap, set-get_elem?, Option-cases, take-length, Bool-cases, subst, sym,
  refl, set,
}
use sysprog_solutions.Ufs.State.{
  value, Ufs, no_permission, no_permission_message, Mode, print_err_msg, Filedesc,
}
use sysprog_solutions.Ufs.Spec.{
  Spec, Handle, unwritten, freed, holds, Contents, read_contents, readable, read_as, spec_read,
}
use sysprog_solutions.Ufs.Spec.Represents.{
  Represents, Opened, Simulates, desc_of, Filled, refused-Represents, Represents-Opened, Held,
}
use sysprog_solutions.Ufs.Blocks.Reading.{read_data_short}
use sysprog_solutions.Ufs.Calls.{ufs_read, fail, may_read}

-- A read that succeeds leaves the state as it was.
read_whole :
    {s : Ufs} {a : Spec} (fdno : ℕ) (array : List ℕ) (size : ℕ) (h : Handle) (m : Mode)
    (bytes : List ℕ)
    → (o : Opened s a fdno h) → Filled o.file.block_list bytes
    → h.mode ≡ some m
    → may_read m ≡ true
    → readable h bytes array size ≡ true
    → ufs_read fdno array size s
      ≡ ok ((value (length bytes), bytes ++ drop (length bytes) array), s)
unfolding ufs_read
read_whole {s} fdno array size h m bytes o filled mode may fits =
    let n = length bytes in
    let pos : 0 < n = ground arith in
    let few : n < 8 = ground arith in
    let at_end : h.offset ≡ n = ground arith in
    let room : n ≤ length array = ground arith in
    let some_size : 0 < size = ground arith in
    let whole : size % 8 ≡ 0 = ground arith in
    let rounds : size / 8 ≡ suc (size / 8 - 1) = omega arith in
    let one = filled.at ∙ ap some (filled.short pos few) in
    let now : Filedesc = record { file = h.file; offset = n; mode = some m } in
    let same : desc_of h ≡ now =
      ap (λ k. record { file = h.file; offset = k; mode = h.mode }) at_end
      ∙ ap (λ x. record { file = h.file; offset = n; mode = x }) mode in
    let stays : set s.filedescs o.place (some now) ≡ s.filedescs =
      ap (λ (x : Filedesc). set s.filedescs o.place (some x)) (sym same)
      ∙ set-get_elem? s.filedescs o.place (some (desc_of h)) o.is_open.desc in
    rw
      (
        o.is_open.slot,
        o.is_open.desc,
        mode,
        may,
        o.is_open.file,
        one,
        whole,
        rounds,
        at_end,
        read_data_short bytes array n (size / 8 - 1) (omega arith) room,
      )
      (ap
          (λ (front : List ℕ). ok (
            (value n, front ++ drop n array),
            record s { filedescs = set s.filedescs o.place (some now) },
          ))
          (take-length bytes)
        ∙ ap (λ fds. ok ((value n, bytes ++ drop n array), record s { filedescs = fds })) stays)

read_contents-Simulates :
    {s : Ufs} {a : Spec} (fdno : ℕ) (array : List ℕ) (size : ℕ) (h : Handle) (m : Mode)
    (c : Contents)
    → Represents s a
    → (o : Opened s a fdno h) → o.contents ≡ c
    → h.mode ≡ some m
    → may_read m ≡ true
    → Simulates (ufs_read fdno array size s) (read_contents (some c) h array size a)
read_contents-Simulates fdno array size h m unwritten r o same mode may = tt
read_contents-Simulates fdno array size h m freed r o same mode may = tt
read_contents-Simulates {s} fdno array size h m (holds bytes) r o same mode may =
    elim (Bool-cases (readable h bytes array size)) [
      | inr wrong ↦ rw wrong tt
      | inl fits ↦
          let filled : Filled o.file.block_list bytes =
            subst (Held o.file.block_list) same o.held in
          rw fits (s, read_whole fdno array size h m bytes o filled mode may fits, r)
    ]

read_open-Simulates :
    {s : Ufs} {a : Spec} (fdno : ℕ) (array : List ℕ) (size : ℕ) (h : Handle)
    → Represents s a
    → get_elem? a.handles fdno ≡ some h
    → Simulates (ufs_read fdno array size s) (read_as h.mode h array size a)
unfolding ufs_read fail print_err_msg
read_open-Simulates {s} {a} fdno array size h r e =
    let o = Represents-Opened fdno h r e in
    elim (Option-cases h.mode) [
      | inl unset ↦ rw unset tt
      | inr (m, mode) ↦
          subst (λ x. Simulates (ufs_read fdno array size s) (read_as x h array size a)) (sym mode)
            (elim (Bool-cases (may_read m)) [
              | inl may ↦
                  rw (may, o.at)
                    (read_contents-Simulates fdno array size h m o.contents r o refl mode may)
              | inr never ↦ rw never (
                record s {
                  ufs_err_code = no_permission;
                  stderr = s.stderr ++ (no_permission_message ∷ []);
                },
                rw (o.is_open.slot, o.is_open.desc, mode, never) refl,
                refused-Represents no_permission no_permission_message r,
              )
            ])
    ]

pub ufs_read-Simulates :
    {s : Ufs} {a : Spec} (fdno : ℕ) (array : List ℕ) (size : ℕ)
    → Represents s a
    → Simulates (ufs_read fdno array size s) (spec_read fdno array size a)
unfolding spec_read
ufs_read-Simulates {s} {a} fdno array size r = elim (Option-cases (get_elem? a.handles fdno)) [
  | inl missing ↦ rw missing tt
  | inr (h, e) ↦ rw e (read_open-Simulates fdno array size h r e)
]
