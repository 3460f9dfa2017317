-- ===== src/Fs/Content/Mapped.antt =====
-- `bmap` of kernel/fs.c: it maps the block that is asked for, and nothing else of the file changes.
use cs202lab.Prelude.{ℕ, ◌+◌, ◌*◌, ◌<◌, ◌≡◌, ◌≢◌, refl, ◌∙◌, ap, true, arith, eq→==, ne→==, update}
use cs202lab.Fs.Disk.{word, Inode, Superblock, Fs}
use cs202lab.Fs.Bitmap.Marks.{is_used}
use cs202lab.Fs.Bitmap.Alloc.{Allocated}
use cs202lab.Fs.Content.{ndirect, nindirect, maxfile, store_slot, store_entry}
use cs202lab.Fs.Content.Blocks.{addr_of, Map, InUse, Good, OrNew, kept, out_of_blocks, new}
use cs202lab.Fs.Content.Steps.{
  addr_of-below, addr_of-below_eq, addr_of-above, Step, direct, direct-Step, rooted-Step,
}
use cs202lab.Fs.Content.Entry.{entered, addr_of-entered, entered-Step}

pub Map-mono :
    {U V : ℕ → Type 0} {root : ℕ} {addr : ℕ → ℕ}
    → ((b : ℕ) → U b → V b)
    → Map U root addr
    → Map V root addr
Map-mono h m = record {
  top = λ ne. h _ (m.top ne);
  held = λ c lt ne. h _ (m.held c lt ne);
  apart = m.apart;
  distinct = m.distinct;
}

module _ (sb : Superblock) where
  module _ (f : Fs) (t : ℕ → Inode) where
    InUse-table : (b : ℕ) → InUse sb f b → InUse sb (record f { itable = t }) b
    InUse-table b u = record { low = u.low; high = u.high; used = u.used }

    -- What holds_inode of the blocks does not depend on the table.
    pub Good-table : (ip : Inode) → Good sb f ip → Good sb (record f { itable = t }) ip
    Good-table ip g = record {
      small = g.small;
      marked = record { fits = g.marked.fits; byte = g.marked.byte; reserved = g.marked.reserved };
      owned = Map-mono InUse-table g.owned;
    }

    Step-table :
        (bn : ℕ) (e : Fs) (ip ip' : Inode)
        → Step sb bn e ip f ip'
        → Step sb bn e ip (record f { itable = t }) ip'
    Step-table bn e ip ip' s = record {
      others = s.others;
      kept_addr = s.kept_addr;
      fresh = s.fresh;
      content = s.content;
      root = s.root;
      root_new = s.root_new;
      mono = λ b u. InUse-table b (s.mono b u);
      same = s.same;
      good = Good-table ip' s.good;
    }

  Step-refl : (bn : ℕ) {f : Fs} {ip : Inode} → Good sb f ip → Step sb bn f ip f ip
  Step-refl bn g = record {
    others = λ c lc ne. refl;
    kept_addr = λ ln h. refl;
    fresh = λ ln z h. absurd (h z);
    content = λ b u ne. refl;
    root = λ h. refl;
    root_new = λ z h. absurd (h z);
    mono = λ b u. u;
    same = refl;
    good = g;
  }

  -- The change from f to f' by a call that looks for block bn of the inode i and gives address a.
  pub record Mapped (i bn : ℕ) (f : Fs) (a : ℕ) (f' : Fs) : Type 0 where
    pub addr : bn < maxfile → addr_of f'.block (f'.itable i) bn ≡ a
    pub full : a ≡ 0 → (c : ℕ) → c < sb.size → is_used sb f' c ≡ true
    pub step : Step sb bn f (f.itable i) f' (f'.itable i)
    pub others : (j : ℕ) → j ≢ i → f'.itable j ≡ f.itable j
    pub pid : f'.pid ≡ f.pid

  module _ (i : ℕ) {f : Fs} (g : Good sb f (f.itable i)) where
    -- The inode after its slot n was stored.
    module _ (n a : ℕ) {f1 : Fs} (al : Allocated sb f a f1) where
      abbrev updated : Inode
      updated = record (f.itable i) { addrs = update (f.itable i).addrs n a }

      store_slot-at : (store_slot i n a f1).itable i ≡ updated
      store_slot-at =
          let e : f1.itable ≡ f.itable = ap (λ (h : Fs). h.itable) al.memory in
          rw (eq→== i i refl, e) refl

      store_slot-Mapped :
          (bn : ℕ)
          → Step sb bn f (f.itable i) f1 updated
          → (bn < maxfile → addr_of f1.block updated bn ≡ a)
          → a ≢ 0
          → Mapped i bn f a (store_slot i n a f1)
      store_slot-Mapped bn s e pos = record {
        addr = λ ln. rw store_slot-at (e ln);
        full = λ z. absurd (pos z);
        step = rw store_slot-at (Step-table f1 _ bn f (f.itable i) updated s);
        others = λ j ne.
            let q : f1.itable ≡ f.itable = ap (λ (h : Fs). h.itable) al.memory in
            rw (ne→== j i ne, q) refl;
        pid = ap (λ (h : Fs). h.pid) al.memory;
      }

    pub direct-Mapped :
        (n : ℕ) {r : ℕ × Fs}
        → n < ndirect
        → OrNew sb ((f.itable i).addrs n) (store_slot i n) f r
        → Mapped i n f r.0 r.1
    direct-Mapped n lt (kept h) = record {
      addr = λ ln. addr_of-below_eq f.block (f.itable i) n lt;
      full = λ z. absurd (h z);
      step = Step-refl n g;
      others = λ j ne. refl;
      pid = refl;
    }
    direct-Mapped n lt (out_of_blocks z full) = record {
      addr = λ ln. addr_of-below f.block (f.itable i) n lt z;
      full = λ e. full;
      step = Step-refl n g;
      others = λ j ne. refl;
      pid = refl;
    }
    direct-Mapped n lt (new {a} {f1} z pos al) =
        store_slot-Mapped n a al n (direct-Step sb g al n lt z pos)
          (λ ln.
            let e = addr_of-below_eq f1.block (direct sb g al n lt z) n lt in ground (arith, e))
          pos

    -- The search for the indirect block maps no block of the content.
    pub root-Mapped :
        {r : ℕ × Fs}
        → OrNew sb ((f.itable i).addrs ndirect) (store_slot i ndirect) f r
        → Mapped i maxfile f r.0 r.1 × ((r.1.itable i).addrs ndirect ≡ r.0)
    root-Mapped (kept h) = (
      record {
        addr = λ ln. absurd (omega arith);
        full = λ z. absurd (h z);
        step = Step-refl maxfile g;
        others = λ j ne. refl;
        pid = refl;
      },
      refl,
    )
    root-Mapped (out_of_blocks z full) = (
      record {
        addr = λ ln. absurd (omega arith);
        full = λ e. full;
        step = Step-refl maxfile g;
        others = λ j ne. refl;
        pid = refl;
      },
      z,
    )
    root-Mapped (new {a} {f1} z pos al) = (
      store_slot-Mapped ndirect a al maxfile (rooted-Step sb g al z pos)
          (λ ln. absurd (omega arith)) pos,
      ap (λ (q : Inode). q.addrs ndirect) (store_slot-at ndirect a al),
    )

    -- The entry of the indirect block.
    pub entry-Mapped :
        (n : ℕ) {r : ℕ × Fs}
        → n < nindirect
        → (f.itable i).addrs ndirect ≢ 0
        → let b = (f.itable i).addrs ndirect in
          OrNew sb (word (f.block b) (4 * n)) (store_entry b n) f r
          → Mapped i (n + ndirect) f r.0 r.1
    entry-Mapped n lt h (kept h') = record {
      addr = λ ln. addr_of-above f.block (f.itable i) n h;
      full = λ z. absurd (h' z);
      step = Step-refl _ g;
      others = λ j ne. refl;
      pid = refl;
    }
    entry-Mapped n lt h (out_of_blocks z full) = record {
      addr = λ ln. addr_of-above f.block (f.itable i) n h ∙ z;
      full = λ e. full;
      step = Step-refl _ g;
      others = λ j ne. refl;
      pid = refl;
    }
    entry-Mapped n lt h (new {a} {f1} z pos al) =
        let q : f1.itable ≡ f.itable = ap (λ (h : Fs). h.itable) al.memory in
        let unset = addr_of-above f.block (f.itable i) n h ∙ z in
        let e : (entered sb g al n lt h unset).itable i ≡ f.itable i =
          ap (λ (t : ℕ → Inode). t i) q in
        record {
          addr = λ ln. rw e (ground (arith, addr_of-entered sb g al n lt h unset (n + ndirect) ln));
          full = λ z'. absurd (pos z');
          step = rw e (entered-Step sb g al n lt h unset pos);
          others = λ j ne. ap (λ (t : ℕ → Inode). t j) q;
          pid = ap (λ (h : Fs). h.pid) al.memory;
        }
