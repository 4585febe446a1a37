-- ===== src/Ufs/Blocks/Reading.antt =====
-- When `read_data` of userfs.c returns, and what it copies then.
use sysprog_solutions.Common.{
  ℕ, zero, suc, ◌+◌, ◌-◌, ◌≤◌, ◌<◌, ◌≡◌, ◌≢◌, refl, ap, ◌∙◌, List, [], ◌∷◌, ◌++◌, some, leb, ◌==◌,
  take, drop, replicate, length, ok, arith, Option-cases, inl, inr, take-take_append, Outcome,
  false, Option, none, length-take, err, true,
}
use sysprog_solutions.Ufs.State.{Block, Trap, out_of_fuel}
use sysprog_solutions.Ufs.Blocks.{
  Progress, next_block, read_blocks, read_rest, read_data, copy_to, last_part, fault,
}
use sysprog_solutions.Ufs.Blocks.Contents.{first_occupied}

-- Through the loop, `offset` runs ahead of `total_read` by the size of the block that comes next,
-- less that of the block at which the loop began.
abbrev Ahead : ℕ → ℕ → Option (Progress × List Block) → Type 0
Ahead begin ahead none = Unit
Ahead begin ahead (some (r, bl)) = r.offset + begin ≡ r.total_read + ahead + first_occupied bl

read_blocks-Ahead :
    (n : ℕ) (r : Progress) (bl : List Block) (begin ahead : ℕ)
    → r.offset + begin ≡ r.total_read + ahead + first_occupied bl
    → Ahead begin ahead (read_blocks n r bl)
unfolding read_blocks
read_blocks-Ahead zero r bl begin ahead h = h
read_blocks-Ahead (suc n) r [] begin ahead h = h
read_blocks-Ahead (suc n) r (b ∷ bs) begin ahead h =
    elim (Option-cases (copy_to r.array r.buf (take b.occupied b.memory))) [
      | inl past ↦ rw (past, Ahead) tt
      | inr (array, copied) ↦
          rw (copied, Ahead)
            (let moved = record r { array = array; total_read = r.total_read + b.occupied } in
              read_blocks-Ahead n (next_block moved bs) bs begin ahead
                (next moved bs (omega arith)))
    ]
  where
    next :
        (m : Progress) (bs : List Block)
        → m.offset + begin ≡ m.total_read + ahead
        → (next_block m bs).offset + begin
          ≡ (next_block m bs).total_read + ahead + first_occupied bs
    next m [] e = omega arith
    next m (c ∷ cs) e = omega arith

-- A run that stops, and not for want of fuel.
abbrev pub Refuses : {A : Type 0} → Outcome Trap A → Type 0
Refuses (ok a) = ⊥
Refuses (err e) = e ≢ out_of_fuel

read_rest-Refuses :
    (remained : ℕ) (r : Progress) (bl : List Block)
    → r.total_read < r.offset
    → Refuses (read_rest remained r bl)
unfolding read_rest
read_rest-Refuses remained r [] h = ground arith
read_rest-Refuses remained r (b ∷ bs) h =
    elim (Option-cases (copy_to r.array r.buf (take remained b.memory))) [
      | inl past ↦ rw (past, Refuses) (λ e. cc)
      | inr (array, copied) ↦
          rw (copied, Refuses)
            (let off : ((r.offset + remained) == (r.total_read + remained)) ≡ false =
                ground arith in
              rw (off, Refuses) (λ e. cc))
    ]

-- `read_data` never returns from an offset past the size of the first block.
pub read_data-Refuses :
    (offset : ℕ) (blocks : List Block) (array : List ℕ) (block_count remained : ℕ)
    → first_occupied blocks < offset
    → Refuses (read_data offset blocks array block_count remained)
unfolding read_data
read_data-Refuses offset blocks array block_count remained h =
    finish (read_blocks block_count start blocks)
      (read_blocks-Ahead block_count start blocks (first_occupied blocks) offset (omega arith))
  where
    start : Progress
    start = record { array = array; buf = 0; total_read = 0; offset = offset }

    finish :
        (o : Option (Progress × List Block))
        → Ahead (first_occupied blocks) offset o
        → Refuses (elim o [ none ↦ err fault | some (r, bl) ↦ read_rest remained r bl ])
    finish none e = λ e. cc
    finish (some (r, bl)) e = read_rest-Refuses remained r bl (omega arith)

copy_to_start :
    (array bytes : List ℕ)
    → length bytes ≤ length array
    → copy_to array 0 bytes ≡ some (bytes ++ drop (length bytes) array)
unfolding copy_to
copy_to_start array bytes h =
    let fits : leb (0 + length bytes) (length array) ≡ true = ground arith in
    let e : 0 + length bytes ≡ length bytes = omega arith in rw fits (rw e)

read_blocks_end : (n : ℕ) (r : Progress) → read_blocks n r [] ≡ some (r, [])
unfolding read_blocks
read_blocks_end zero r = refl
read_blocks_end (suc n) r = refl

read_blocks_one :
    (k : ℕ) (r : Progress) (b : Block) {array : List ℕ}
    → copy_to r.array r.buf (take b.occupied b.memory) ≡ some array
    → read_blocks (suc k) r (b ∷ [])
      ≡ some (record r { array = array; total_read = r.total_read + b.occupied }, [])
unfolding read_blocks
read_blocks_one k r b e = rw (e, read_blocks) (read_blocks_end k _)

read_rest_end :
    (r : Progress) → r.offset ≡ r.total_read → read_rest 0 r [] ≡ ok (r.array, r.total_read)
unfolding read_rest
read_rest_end r e = let same : (r.offset == r.total_read) ≡ true = ground arith in rw same

-- The bytes of a file of one block of `n` bytes, less than eight, from offset `n`.
pub read_data_short :
    (buf array : List ℕ) (n k : ℕ)
    → n ≤ length buf
    → n ≤ length array
    → read_data n (last_part n buf ∷ []) array (suc k) 0 ≡ ok (take n buf ++ drop n array, n)
unfolding read_data
read_data_short buf array n k l m =
    let long = length-take n buf l in
    let copied =
      ap (copy_to array 0) (take-take_append n buf (replicate (8 - n) 0) l)
      ∙ copy_to_start array (take n buf) (omega arith)
      ∙ ap (λ t. some (take n buf ++ drop t array)) long in
    let start : Progress = record { array = array; buf = 0; total_read = 0; offset = n } in
    rw (read_blocks_one k start (last_part n buf) copied, read_data)
      (read_rest_end _ (omega arith) ∙ ap (λ t. ok (take n buf ++ drop n array, t)) (omega arith))
