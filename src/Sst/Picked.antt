-- ===== src/Sst/Picked.antt =====
-- The restart point that the lookup picks, and the value it finds: src/sstparser/sst_parser.cpp.
use tiny_db.Prelude.{
  ℕ, zero, suc, ◌<◌, ◌≡◌, refl, sym, ap, subst, ◌∙◌, ◌⊎◌, true, false, Option, none, some, Bytes,
  length, ◌==◌, ◌>>=◌, if◌then◌else◌, arith, Bool-cases, inl, inr, bind_some, some_injective,
}
use tiny_db.Prelude.Int.{ℤ, pos, ◌+ℤ◌, ◌-ℤ◌, ltb_ℤ}
use tiny_db.Order.ByteString.{bytes_less}
use tiny_db.Wal.{int32}
use tiny_db.Blocks.{OffsetInfo}
use tiny_db.Sst.Parser.{
  rounds, word_at, info_at, scan_records, find_full_key_by_rp, last_restart, RestartPoint,
  find_key_in_db,
}
use tiny_db.Sst.Scanned.{IsScanned, scan_records-IsScanned}

module _ (content : Bytes) where
  module _ (start : ℤ) (key : Bytes) where
    -- The restart point at a place, with the full key of its group.
    abbrev pub IsPoint : ℤ → RestartPoint → Type 0
    IsPoint at rp =
        (word_at content at ≡ some rp.record_num)
        × (info_at content (at +ℤ pos 4) ≡ some rp.rp_offset)
        × (find_full_key_by_rp content start rp.record_num rp.rp_offset ≡ some rp.fullkey)

    -- There is no further point, or the full key of the next one is above the key.
    abbrev pub Stops : ℕ → ℤ → Type 0
    Stops count at =
        (count ≡ 0)
        ⊎ ((next : RestartPoint) × IsPoint at next × (bytes_less key next.fullkey ≡ true))

    -- Of `count` points from `at` on, the last one in front of the first whose full key is above the
    -- key.
    abbrev pub Picks : ℕ → ℤ → RestartPoint → Type 0
    Picks zero at rp = ⊥
    Picks (suc count) at rp =
        (IsPoint at rp × (bytes_less key rp.fullkey ≡ false) × Stops count (at +ℤ pos 12))
        ⊎ ((other : RestartPoint) × IsPoint at other
            × (bytes_less key other.fullkey ≡ false)
            × Picks count (at +ℤ pos 12) rp)

    last_restart-Picks :
        (count : ℕ) (at : ℤ) (kept found : Option RestartPoint)
        → last_restart count content key start at kept ≡ some found
        → ((found ≡ kept) × Stops count at)
          ⊎ ((rp : RestartPoint) × (found ≡ some rp) × Picks count at rp)
    unfolding last_restart
    last_restart-Picks zero at kept found e = inl (sym (some_injective e), inl refl)
    last_restart-Picks (suc count) at kept found e =
        let (num, word, e1) = bind_some (word_at content at) _ found e in
        let (offset, info, e2) = bind_some (info_at content (at +ℤ pos 4)) _ found e1 in
        let (fullkey, full, e3) =
          bind_some (find_full_key_by_rp content start num offset) _ found e2 in
        let rp : RestartPoint = record {
          record_num = num;
          rp_offset = offset;
          fullkey = fullkey;
        } in
        elim (Bool-cases (bytes_less key fullkey)) [
          | inl below ↦
              inl (sym (some_injective (rw below at e3)), inr (rp, (word, info, full), below))
          | inr reached ↦
              elim (last_restart-Picks count (at +ℤ pos 12) (some rp) found (rw reached at e3)) [
                | inl (same, stops) ↦ inr (rp, same, inl ((word, info, full), reached, stops))
                | inr (later, same, picks) ↦
                    inr (later, same, inr (rp, (word, info, full), reached, picks))
              ]
        ]

    -- A value from the block from `start` to `stop`: that of the record of the key in the group of the
    -- restart point that is picked.
    pub record IsFound (stop : ℤ) (v : Bytes) : Type 0 where
      pub restart_num : ℕ
      pub restart_offset : OffsetInfo
      pub rp : RestartPoint
      pub behind : ℤ
      pub counted : word_at content (stop -ℤ pos 12) ≡ some restart_num
      pub placed : info_at content (stop -ℤ pos 8) ≡ some restart_offset
      pub picked : Picks (rounds (int32 restart_num)) (start +ℤ int32 restart_offset.offset) rp
      pub scanned :
          IsScanned content rp.fullkey key
            (rounds (int32 rp.record_num))
            (start +ℤ int32 rp.rp_offset.offset)
            behind
            v
      pub inside :
          ltb_ℤ (start +ℤ int32 rp.rp_offset.offset +ℤ int32 rp.rp_offset.size) behind ≡ false
      pub something : 0 < length v

    -- What follows the restart points in `FindKeyInDB`.
    abbrev in_group : Option RestartPoint → Option (Option Bytes)
    in_group none = some none
    in_group (some rp) =
        let group = start +ℤ int32 rp.rp_offset.offset in
        scan_records (rounds (int32 rp.record_num)) content rp.fullkey key group >>= λ r.
        if ltb_ℤ (group +ℤ int32 rp.rp_offset.size) r.0
        then none
        else if length r.1 == 0
        then some none
        else some (some r.1)

    in_group-IsScanned :
        (rp : RestartPoint) (v : Bytes)
        → in_group (some rp) ≡ some (some v)
        → (behind : ℤ) × IsScanned content rp.fullkey key
            (rounds (int32 rp.record_num))
            (start +ℤ int32 rp.rp_offset.offset)
            behind
            v
          × (ltb_ℤ (start +ℤ int32 rp.rp_offset.offset +ℤ int32 rp.rp_offset.size) behind ≡ false)
          × (0 < length v)
    in_group-IsScanned rp v e =
        let group = start +ℤ int32 rp.rp_offset.offset in
        let (r, run, e1) =
          bind_some (scan_records (rounds (int32 rp.record_num)) content rp.fullkey key group) _
            (some v) e in
        elim (Bool-cases (ltb_ℤ (group +ℤ int32 rp.rp_offset.size) r.0)) [
          | inl over ↦ absurd (cc (rw over at e1))
          | inr inside ↦
              let e2 = rw inside at e1 in
              elim (Bool-cases (length r.1 == 0)) [
                | inl empty ↦ absurd (cc (rw empty at e2))
                | inr some_bytes ↦
                    let same : r.1 ≡ v = some_injective (some_injective (rw some_bytes at e2)) in
                    let filled : 0 < length v = subst (λ x. 0 < length x) same (ground arith) in
                    (
                      r.0,
                      scan_records-IsScanned content rp.fullkey key (rounds (int32 rp.record_num))
                          group r.0 v (run ∙ ap (λ x. some (r.0, x)) same) filled,
                      inside,
                      filled,
                    )
              ]
        ]

    pub find_key_in_db-IsFound :
        (stop : ℤ) (v : Bytes)
        → find_key_in_db content key start stop ≡ some (some v)
        → IsFound stop v
    unfolding find_key_in_db
    find_key_in_db-IsFound stop v e =
        let (num, counted, e1) = bind_some (word_at content (stop -ℤ pos 12)) _ (some v) e in
        let (offset, placed, e2) = bind_some (info_at content (stop -ℤ pos 8)) _ (some v) e1 in
        let at = start +ℤ int32 offset.offset in
        let (found, run, e3) =
          bind_some (last_restart (rounds (int32 num)) content key start at none) in_group (some v)
            e2 in
        elim (last_restart-Picks (rounds (int32 num)) at none found run) [
          | inl (same, _) ↦ absurd (cc (sym (ap in_group same) ∙ e3))
          | inr (rp, same, picks) ↦
              let (behind, scanned, inside, something) =
                in_group-IsScanned rp v (sym (ap in_group same) ∙ e3) in
              record {
                restart_num = num;
                restart_offset = offset;
                rp = rp;
                behind = behind;
                counted = counted;
                placed = placed;
                picked = picks;
                scanned = scanned;
                inside = inside;
                something = something;
              }
        ]
