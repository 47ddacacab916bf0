-- ===== src/Sst/Found.antt =====
-- Which values `Seek` can return: src/sstparser/sst_parser.cpp.
use tiny_db.Prelude.{
  ℕ, zero, suc, ◌<◌, ◌≡◌, sym, ap, subst, ◌∙◌, true, some, Bytes, length, ltb, ◌==◌, arith,
  Bool-cases, Option-cases, inl, inr, bind_some, ltb→lt, some_injective,
}
use tiny_db.Prelude.Int.{ℤ, pos, pos_part, ◌+ℤ◌, ltb_ℤ}
use tiny_db.Wal.{int32}
use tiny_db.Sst.Parser.{
  word_at, find_full_key_by_rp, RestartPoint, Parser, find_key_db_index, block_at, seek, IndexBlock,
}
use tiny_db.Bloom
use tiny_db.Sst.Scanned.{IsRecord, Skips, string_at-length}
use tiny_db.Sst.Picked.{IsPoint, Picks, IsFound, find_key_in_db-IsFound}

-- A value that `Seek` returns: the filter has the key, and the value is from the block of the index that
-- `FindKeyDBIndex` names.
pub record IsHit (p : Parser) (key v : Bytes) : Type 0 where
  pub there : Bloom.exists p.filter_policy key ≡ some true
  pub number : ℕ
  pub block : IndexBlock
  pub named : find_key_db_index key p.index_blocks ≡ some number
  pub at_number : block_at p.index_blocks number ≡ some block
  pub found :
      IsFound p.sst_content
        (int32 block.offset_info.offset)
        key
        (int32 block.offset_info.offset +ℤ int32 block.offset_info.size)
        v
  pub even : length found.scanned.unshared ≡ length v
  pub later : 0 < found.scanned.before

-- What is read for the key and for the value is equally long.
IsRecord-even :
    (content : Bytes) (place : ℤ) (n : ℕ) (u v : Bytes)
    → IsRecord content place n u v
    → length u ≡ length v
IsRecord-even content place n u v (word, first, second) = ap pos_part (
    sym (string_at-length content _ (int32 n) u first)
    ∙ string_at-length content _ (int32 n) v second)

Picks-IsPoint :
    (content : Bytes) (start : ℤ) (key : Bytes) (count : ℕ) (at : ℤ) (rp : RestartPoint)
    → Picks content start key count at rp
    → (place : ℤ) × IsPoint content start key place rp
Picks-IsPoint content start key zero at rp h = absurd h
Picks-IsPoint content start key (suc count) at rp (inl (point, _, _)) = (at, point)
Picks-IsPoint content start key (suc count) at rp (inr (other, _, _, picks)) =
    Picks-IsPoint content start key count _ rp picks

-- The first record of a group, whose first number is 0, has no value.
first-empty :
    (content : Bytes) (start : ℤ) (rp : RestartPoint) (n : ℕ) (u v : Bytes)
    → find_full_key_by_rp content start rp.record_num rp.rp_offset ≡ some rp.fullkey
    → IsRecord content (start +ℤ int32 rp.rp_offset.offset) n u v
    → length v ≡ 0
unfolding find_full_key_by_rp
first-empty content start rp n u v e (word, first, second) =
    elim (Bool-cases (ltb_ℤ (pos 0) (int32 rp.record_num))) [
      | inr fails ↦ absurd (cc (rw fails at e))
      | inl positive ↦
          let (m, other, e1) =
            bind_some (word_at content (start +ℤ int32 rp.rp_offset.offset)) _ rp.fullkey
              (rw positive at e) in
          let (k, size, e2) =
            bind_some (word_at content (start +ℤ int32 rp.rp_offset.offset +ℤ pos 4)) _ rp.fullkey
              e1 in
          let same : m ≡ n = some_injective (sym other ∙ word) in
          elim (Bool-cases (m == 0)) [
            | inr fails ↦ absurd (cc (rw fails at e2))
            | inl shares_none ↦
                let none_shared : n ≡ 0 = ground (arith, same) in
                ap pos_part
                  (sym (string_at-length content _ (int32 n) v second) ∙ ap int32 none_shared)
          ]
    ]

IsFound-later :
    (content : Bytes) (start : ℤ) (key : Bytes) (stop : ℤ) (v : Bytes)
    (f : IsFound content start key stop v)
    → 0 < f.scanned.before
IsFound-later content start key stop v f = elim (Bool-cases (ltb 0 f.scanned.before)) [
  | inl later ↦ ltb→lt _ _ later
  | inr first ↦
      let (place, point) = Picks-IsPoint content start key _ _ f.rp f.picked in
      let is_first : f.scanned.before ≡ 0 = ground arith in
      let at =
        subst
          (λ r.
            Skips content f.rp.fullkey key (start +ℤ int32 f.rp.rp_offset.offset) r f.scanned.place)
          is_first f.scanned.skipped in
      absurd (
        omega (
          arith,
          f.something,
          first-empty content start f.rp f.scanned.size f.scanned.unshared v point.2 (
              subst (λ x. IsRecord content x f.scanned.size f.scanned.unshared v) (sym at)
                f.scanned.here),
        ))
]

-- If Seek returns a value, then the filter answers that the key may be there, and the value is
-- read from the block of the first index entry whose key is above the key, in the group of the
-- last restart point of that block in front of the first one whose full key is above the key.
-- There it is the value of the first record that makes the key of the full key, up to its first
-- NUL, and its own text; every record in front of it is of another key, and it ends inside the
-- group. It is never the first record of the group; its value is as long as its text, and is not
-- empty.
pub seek-IsHit : (p : Parser) (key v : Bytes) → seek p key ≡ some (some v) → IsHit p key v
unfolding seek
seek-IsHit p key v e =
    let (there, run, e1) = bind_some (Bloom.exists p.filter_policy key) _ (some v) e in
    elim (Bool-cases there) [
      | inr fails ↦ absurd (cc (rw fails at e1))
      | inl answered ↦
          let e2 = rw answered at e1 in
          elim (Option-cases (find_key_db_index key p.index_blocks)) [
            | inl none_named ↦ absurd (cc (rw none_named at e2))
            | inr (i, named) ↦
                let (block, at_number, e3) =
                  bind_some (block_at p.index_blocks i) _ (some v) (rw named at e2) in
                let start = int32 block.offset_info.offset in
                let found =
                  find_key_in_db-IsFound p.sst_content start key
                    (start +ℤ int32 block.offset_info.size) v e3 in
                record {
                  there = run ∙ ap some answered;
                  number = i;
                  block = block;
                  named = named;
                  at_number = at_number;
                  found = found;
                  even =
                      IsRecord-even p.sst_content found.scanned.place found.scanned.size
                        found.scanned.unshared v found.scanned.here;
                  later = IsFound-later p.sst_content start key _ v found;
                }
          ]
    ]
