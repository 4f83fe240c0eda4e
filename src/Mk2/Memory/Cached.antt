-- ===== src/Mk2/Memory/Cached.antt =====
-- src/jtag2rw.cc, `jtagRead` of pages: what comes from the cache.
use jtag_js.Base.{
  ℕ, suc, ◌+◌, ◌-◌, ◌<◌, ◌≤◌, ◌≡◌, refl, ap, ◌∙◌, arith, [], append-nil, ==_iff, ==_false, Bytes,
}
use jtag_js.Port.{Link, returned, ◌>>=◌}
use jtag_js.Mk2.Memory.{
  Target, slice, cache_of, cache_addr, load_page, read_pages, page_of, first_chunk, read_paged,
}

cached :
    (space page_size : ℕ) (t : Target) (l : Link)
    → load_page space page_size (cache_addr space t) t l ≡ returned t l
unfolding load_page
cached space page_size t l = rw ((==_iff (cache_addr space t) (cache_addr space t)).1 refl) refl

-- The rounds past the last byte.
done :
    (rounds space page_size offset page_addr chunk : ℕ) (t : Target) (l : Link)
    → read_pages (suc rounds) space page_size offset page_addr 0 chunk t l ≡ returned ([], t) l
unfolding read_pages
done rounds space page_size offset page_addr chunk t l = refl

one_page :
    (rounds space page_size offset page_addr n left : ℕ) (t : Target) (l : Link)
    → 0 < n
    → n - n ≡ left
    → left ≡ 0
    → load_page space page_size page_addr t l ≡ returned t l
    → read_pages (suc (suc rounds)) space page_size offset page_addr n n t l
      ≡ returned (slice offset n (cache_of space t), t) l
unfolding read_pages
one_page rounds space page_size offset page_addr n left t l pos gone none_left load =
    rw (read_pages, ==_false n 0 (λ e. omega (arith, e, pos)))
      (rw (◌>>=◌, load)
        (rw (gone, none_left)
          (ap (λ (bytes : Bytes). returned (bytes, t) l)
            (append-nil (slice offset n (cache_of space t))))))

-- A read that stays in the page that is cached gives the bytes of the cache at the offset of the
-- address in the page, says nothing to the box, and leaves the caches as they are.
pub read_paged-cached :
    (space page_size addr num_bytes : ℕ) (t : Target) (l : Link)
    → 0 < num_bytes
    → page_of page_size addr ≡ cache_addr space t
    → addr + num_bytes ≤ page_of page_size addr + page_size
    → read_paged space page_size addr num_bytes t l
      ≡ returned (slice (addr - page_of page_size addr) num_bytes (cache_of space t), t) l
unfolding read_paged
read_paged-cached space page_size addr num_bytes t l pos page inside =
    let whole : first_chunk page_size addr num_bytes ≡ num_bytes = ground arith in
    let load : load_page space page_size (page_of page_size addr) t l ≡ returned t l =
      ap (λ a. load_page space page_size a t l) page ∙ cached space page_size t l in
    ap
      (λ chunk.
        read_pages (num_bytes + 1) space page_size (addr - page_of page_size addr)
          (page_of page_size addr) num_bytes chunk t l)
      whole
    ∙ ap
        (λ fuel.
          read_pages fuel space page_size (addr - page_of page_size addr) (page_of page_size addr)
            num_bytes num_bytes t l)
        enough
    ∙ one_page (num_bytes - 1) space page_size (addr - page_of page_size addr)
        (page_of page_size addr) num_bytes 0 t l pos (omega arith) refl load
  where
    enough : num_bytes + 1 ≡ suc (suc (num_bytes - 1))
    enough = omega arith
