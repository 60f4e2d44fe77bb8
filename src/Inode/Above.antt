-- ===== src/Inode/Above.antt =====
-- What `inode_sync` of fs/inode.c leaves alone behind the table of inodes.
use native.Mathlib.Nat.{mul-le-mul}
use winx.Base.{
  ℕ, ◌+◌, ◌*◌, ◌%◌, ◌^◌, ◌≤◌, ◌<◌, ◌≡◌, refl, inl, inr, false, arith, Bool-cases, ne→==, done,
}
use winx.CString.{Memory}
use winx.Volume.{Volume}
use winx.Inode.{Inode, Layout, inode_sync, sync_at, write_at}
use winx.Inode.Table.{located, inode_locate-located, inside-leb}

-- the sectors that the first 256 inodes can stand in
pub inode_sync-above :
    (layout : Layout) (part : Volume) (inode : Inode)
    → layout.size ≤ 512
    → part.inode_table_lba + 4608 < 2 ^ 32
    → inode.i_no < 256
    → part.inode_table_lba + 256 ≤ part.start_lba + part.sec_cnt
    → (sectors : ℕ → Memory) × (inode_sync layout part inode
        ≡ done (record part { sectors = sectors }))
      × ((lba : ℕ) → part.inode_table_lba + 257 ≤ lba → sectors lba ≡ part.sectors lba)
unfolding inode_sync sync_at write_at located
inode_sync-above layout part inode small low byte inside =
    let n = inode.i_no in
    let few : n ≤ 4096 = omega arith in
    let place = located layout part small low n few in
    let number : inode.i_no % 2 ^ 8 ≡ n = omega arith in
    let most : n ≤ 255 = omega arith in
    let bound : n * layout.size ≤ 255 * 512 = mul-le-mul most small in
    let here = inside-leb layout part small low n few (omega arith) in
    (
      (write_at layout part place
          (layout.to_bytes (record inode { i_open_cnts = 0; write_deny = false }))).sectors,
      rw (number, inode_locate-located layout part small low n few, here) refl,
      λ lba above. elim (Bool-cases place.two_sec) [
        | inl two ↦
            rw
              (
                two,
                ne→== lba (place.sec_lba + 1) (omega arith),
                ne→== lba place.sec_lba (omega arith),
              )
              refl
        | inr one ↦ rw (one, ne→== lba place.sec_lba (omega arith)) refl
      ],
    )
