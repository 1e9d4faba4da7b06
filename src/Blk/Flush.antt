-- ===== src/Blk/Flush.antt =====
-- `flush_bhash` of kernel/dev/blk/flush.c brings what was written to the disk.
use mathlib.Core.Path.{ap, ◌∙◌}
use risc.Common.{
  ℕ, zero, suc, ◌-◌, ◌≤◌, ◌<◌, ◌≡◌, refl, inl, inr, false, some, List, [], ◌∷◌, arith, ◌==◌,
  if◌then◌else◌, List-cases, length, update,
}
use risc.Sched.Count.{count}
use risc.Blk.{
  Bio, Cache, buf_get, fill, buf_release, drop_dirty, read_bio, write_bio, flush_begin, flush_end,
  flush_all,
}
use risc.Blk.View.{page_of}

-- A block that is not dirty is on the disk as it is, and a dirty one has its buffer.
pub record IsValid (c : Cache) : Type 0 where
  pub synced : (b : ℕ) → count b c.dirty_list ≡ 0 → c.disk b ≡ page_of c b
  pub loaded : (b : ℕ) → 0 < count b c.dirty_list → (buf_get c b).is_new ≡ false
  pub once : (b : ℕ) → count b c.dirty_list ≤ 1

count-drop_dirty :
    (b d : ℕ) (ds : List ℕ) → count d (drop_dirty b ds) ≡ count d ds - (if b == d then 1 else 0)
unfolding drop_dirty
count-drop_dirty b d [] = ground arith
count-drop_dirty b d (x ∷ ds) = ground (arith, count-drop_dirty b d ds, count-drop_dirty b b ds)

drop_dirty_absent : (b : ℕ) (ds : List ℕ) → count b ds ≡ 0 → drop_dirty b ds ≡ ds
unfolding drop_dirty
drop_dirty_absent b [] h = refl
drop_dirty_absent b (d ∷ ds) h = ground (arith, drop_dirty_absent b ds)

-- Reads and writes keep the cache in order: after any of them each block that is not dirty is on the
-- disk as it is, and each dirty one has a buffer and stands once in the list.
pub bio-IsValid :
    (c : Cache) (bio : Bio) (bytes : List ℕ)
    → IsValid c
    → IsValid (read_bio c bio).1 × IsValid (write_bio c bio bytes)
unfolding read_bio write_bio buf_release buf_get fill page_of
bio-IsValid c bio bytes v = (
  record {
    synced = λ b h. ground (arith, v.synced b h);
    loaded = λ b h. ground (arith, v.loaded b h);
    once = v.once;
  },
  record {
    synced = λ b h. ground (arith, v.synced b, count-drop_dirty bio.b_blockno b c.dirty_list);
    loaded = λ b h. ground (arith, v.loaded b, count-drop_dirty bio.b_blockno b c.dirty_list);
    once = λ b. ground (arith, v.once b, count-drop_dirty bio.b_blockno b c.dirty_list);
  },
)

-- the cache with the first dirty block on the disk
cleaned : Cache → ℕ → List ℕ → Cache
cleaned c b ds = record c { dirty_list = ds; disk = update c.disk b (buf_get c b).page }

flush_begin-cleaned :
    (c : Cache) (b : ℕ) (ds : List ℕ)
    → c.dirty_list ≡ b ∷ ds
    → flush_begin c ≡ some (b, cleaned c b ds)
unfolding flush_begin cleaned
flush_begin-cleaned c b ds e = rw e

cleaned-page_of :
    (c : Cache) (b : ℕ) (ds : List ℕ)
    → (buf_get c b).is_new ≡ false
    → (d : ℕ) → page_of (cleaned c b ds) d ≡ page_of c d
unfolding page_of cleaned buf_get
cleaned-page_of c b ds loaded d = ground arith

cleaned-disk :
    (c : Cache) (b : ℕ) (ds : List ℕ)
    → (buf_get c b).is_new ≡ false
    → (d : ℕ) → (cleaned c b ds).disk d ≡ (if d == b then page_of c b else c.disk d)
unfolding page_of cleaned
cleaned-disk c b ds loaded d = ground arith

cleaned-IsValid :
    (c : Cache) (b : ℕ) (ds : List ℕ) → c.dirty_list ≡ b ∷ ds → IsValid c → IsValid (cleaned c b ds)
unfolding cleaned buf_get
cleaned-IsValid c b ds e v =
    let loaded : (buf_get c b).is_new ≡ false = v.loaded b (ground arith) in
    record {
      synced = λ d h.
          ground (arith, v.synced d, cleaned-page_of c b ds loaded d, cleaned-disk c b ds loaded d);
      loaded = λ d h. ground (arith, v.loaded d);
      once = λ d. ground (arith, v.once d);
    }

flush_end-cleaned :
    (c : Cache) (b : ℕ) (ds : List ℕ)
    → c.dirty_list ≡ b ∷ ds
    → IsValid c
    → flush_end (cleaned c b ds) b ≡ cleaned c b ds
unfolding flush_end cleaned
flush_end-cleaned c b ds e v =
    ap (λ l. record (cleaned c b ds) { dirty_list = l })
      (drop_dirty_absent b ds (ground (arith, v.once b)))

flush_all-done : (fuel : ℕ) (c : Cache) → c.dirty_list ≡ [] → flush_all (suc fuel) c ≡ some c
unfolding flush_all flush_begin
flush_all-done fuel c e = rw e

flush_all-round :
    (fuel : ℕ) (c : Cache) (b : ℕ) {c1 : Cache}
    → flush_begin c ≡ some (b, c1)
    → flush_all (suc fuel) c ≡ flush_all fuel (flush_end c1 b)
unfolding flush_all
flush_all-round fuel c b {c1} e = ground arith

-- A flush that nothing interrupts, with fuel for more rounds than there are dirty blocks, ends with no
-- dirty block, each block on the disk as it was in the cache, and no block changed.
pub flush_all-disk :
    (fuel : ℕ) (c : Cache)
    → IsValid c
    → length c.dirty_list < fuel
    → (c1 : Cache) × (flush_all fuel c ≡ some c1)
      × (c1.dirty_list ≡ [])
      × ((b : ℕ) → c1.disk b ≡ page_of c b)
      × ((b : ℕ) → page_of c1 b ≡ page_of c b)
unfolding cleaned
flush_all-disk zero c v lt = absurd (omega arith)
flush_all-disk (suc fuel) c v lt = elim (List-cases c.dirty_list) [
  | inl e ↦ (c, flush_all-done fuel c e, e, λ b. v.synced b (ground arith), λ b. refl)
  | inr (b, ds, e) ↦
      let c2 = cleaned c b ds in
      let loaded : (buf_get c b).is_new ≡ false = v.loaded b (ground arith) in
      let (c1, run, none_left, disk, pages) =
        flush_all-disk fuel c2 (cleaned-IsValid c b ds e v) (omega (arith, ap length e, lt)) in
      let same = cleaned-page_of c b ds loaded in
      (
        c1,
        flush_all-round fuel c b (flush_begin-cleaned c b ds e)
            ∙ ap (flush_all fuel) (flush_end-cleaned c b ds e v)
            ∙ run,
        none_left,
        λ d. disk d ∙ same d,
        λ d. pages d ∙ same d,
      )
]

after_write :
    (c : Cache) (b : ℕ) (bio : Bio) (bytes : List ℕ)
    → bio.b_blockno ≡ b
    → count b c.dirty_list ≡ 0
    → count b (flush_end (write_bio c bio bytes) b).dirty_list ≡ 0
unfolding flush_end write_bio buf_release
after_write c b bio bytes at h =
    ground (
      arith,
      count-drop_dirty b b (b ∷ drop_dirty b c.dirty_list),
      count-drop_dirty b b c.dirty_list,
    )

kept_disk :
    (c : Cache) (b : ℕ) (bio : Bio) (bytes : List ℕ)
    → (flush_end (write_bio c bio bytes) b).disk b ≡ c.disk b
unfolding flush_end write_bio buf_release
kept_disk c b bio bytes = refl

pages_kept : (c : Cache) (b d : ℕ) → page_of (flush_end c b) d ≡ page_of c d
unfolding flush_end page_of buf_get
pages_kept c b d = refl

-- A write to the block that a round has just written to the disk, before the round ends, is lost to
-- the flush: the new page is in the cache, the disk has the old one, and the block is not dirty.
pub flush_end_loses :
    (c : Cache) (b : ℕ) (ds : List ℕ) (bio : Bio) (bytes : List ℕ)
    → IsValid c
    → c.dirty_list ≡ b ∷ ds
    → bio.b_blockno ≡ b
    → (c1 : Cache) × (flush_begin c ≡ some (b, c1))
      × (let c2 = write_bio c1 bio bytes in
          let c3 = flush_end c2 b in
          (count b c3.dirty_list ≡ 0) × (c3.disk b ≡ page_of c b) × (page_of c3 b ≡ page_of c2 b))
unfolding cleaned
flush_end_loses c b ds bio bytes v e at =
    let c1 = cleaned c b ds in
    let loaded : (buf_get c b).is_new ≡ false = v.loaded b (ground arith) in
    (
      c1,
      flush_begin-cleaned c b ds e,
      (
        after_write c1 b bio bytes at (ground (arith, v.once b)),
        kept_disk c1 b bio bytes ∙ ground (arith, cleaned-disk c b ds loaded b),
        pages_kept (write_bio c1 bio bytes) b b,
      ),
    )
