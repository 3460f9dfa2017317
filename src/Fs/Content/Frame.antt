-- ===== src/Fs/Content/Frame.antt =====
-- What leaves the bytes of a file of kernel/fs.c: a write in front of the bitmap, such as `iupdate` makes,
-- and a change of the inode's other fields.
use cs202lab.Prelude.{
  ℕ, ◌*◌, ◌/◌, ◌≤◌, ◌<◌, ◌≡◌, ◌≢◌, inl, inr, refl, ◌∙◌, sym, subst, arith, fun_ext, ltb, ◌==◌,
  ==→ne, eq→==, ne→==, if◌then◌else◌, Bool-cases,
}
use cs202lab.Fs.Disk.{bsize, Block, Inode, Superblock, Fs}
use cs202lab.Fs.Bitmap.Marks.{is_used}
use cs202lab.Fs.Bitmap.Frame.{is_used-frame, Marked-frame}
use cs202lab.Fs.Inodes.{iblock, dinode_offset, iupdate}
use cs202lab.Fs.Inodes.Dinode.{write_dinode-byte}
use cs202lab.Fs.Content.{ndirect, maxfile, grow}
use cs202lab.Fs.Content.Blocks.{addr_of, InUse, Good}
use cs202lab.Fs.Content.Mapped.{Map-mono}
use cs202lab.Fs.Content.Bytes.{byte_at}

module _ (sb : Superblock) where
  module _ {f : Fs} {ip : Inode} (g : Good sb f ip) (f' : Fs)
      (high : (b : ℕ) → sb.bmapstart ≤ b → f'.block b ≡ f.block b)
      (byte : (b o : ℕ) → f'.block b o < 256) where
    pub is_used-high : (c : ℕ) → c < sb.size → is_used sb f' c ≡ is_used sb f c
    is_used-high c lt = is_used-frame sb g.marked f' (λ b lo h. high b lo) c lt

    InUse-high : (b : ℕ) → InUse sb f b → InUse sb f' b
    InUse-high b u = record { low = u.low; high = u.high; used = is_used-high b u.high ∙ u.used }

    addr_of-high : (c : ℕ) → addr_of f'.block ip c ≡ addr_of f.block ip c
    unfolding addr_of
    addr_of-high c = elim (Bool-cases (ip.addrs ndirect == 0)) [
      | inl unset ↦ rw unset refl
      | inr is_set ↦
          let u = g.owned.top (==→ne (ip.addrs ndirect) 0 is_set) in
          rw (high (ip.addrs ndirect) (omega (arith, u.low))) refl
    ]

    pub Good-high : Good sb f' ip
    Good-high =
        let e : addr_of f'.block ip ≡ addr_of f.block ip = fun_ext addr_of-high in
        record {
          small = g.small;
          marked = Marked-frame sb g.marked f' (λ b lo h. high b lo) byte;
          owned = rw e (Map-mono InUse-high g.owned);
        }

    pub byte_at-high : (p : ℕ) → p < maxfile * bsize → byte_at f'.block ip p ≡ byte_at f.block ip p
    unfolding byte_at
    byte_at-high p lp = elim (Bool-cases (addr_of f.block ip (p / bsize) == 0)) [
      | inl z ↦ rw (addr_of-high (p / bsize), z) refl
      | inr h ↦
          let u =
            g.owned.held (p / bsize) (omega arith) (==→ne (addr_of f.block ip (p / bsize)) 0 h) in
          rw
            (
              addr_of-high (p / bsize),
              h,
              high (addr_of f.block ip (p / bsize)) (omega (arith, u.low)),
            )
            refl
    ]

  -- The other fields of the inode do not matter.
  module _ (ip ip' : Inode) (e : ip'.addrs ≡ ip.addrs) where
    pub Good-fields : (f : Fs) → Good sb f ip → Good sb f ip'
    unfolding addr_of
    Good-fields f g =
        subst (λ a. Good sb f (record ip' { addrs = a })) (sym e)
          (record { small = g.small; marked = g.marked; owned = g.owned })

    pub byte_at-fields : (block : ℕ → Block) (p : ℕ) → byte_at block ip' p ≡ byte_at block ip p
    unfolding byte_at addr_of
    byte_at-fields block p = rw e refl

  module _ (i off : ℕ) (f : Fs) where
    pub grow-inode : (grow i off f).itable i ≡ record (f.itable i) {
      size = if ltb (f.itable i).size off then off else (f.itable i).size;
    }
    unfolding grow
    grow-inode = elim (Bool-cases (ltb (f.itable i).size off)) [
      | inl more ↦ rw (more, eq→== i i refl) refl
      | inr less ↦ rw less refl
    ]

    pub grow-others : (j : ℕ) → j ≢ i → (grow i off f).itable j ≡ f.itable j
    unfolding grow
    grow-others j ne = ground (arith, ne)

    pub grow-memory : grow i off f ≡ record f { itable = (grow i off f).itable }
    unfolding grow
    grow-memory = elim (Bool-cases (ltb (f.itable i).size off)) [
      | inl more ↦ rw more refl
      | inr less ↦ rw less refl
    ]

  -- `iupdate` writes in front of the bitmap.
  module _ (i : ℕ) (f : Fs) where
    pub iupdate-high :
        iblock sb (f.itable i).inum < sb.bmapstart
        → (b : ℕ) → sb.bmapstart ≤ b
        → (iupdate sb i f).block b ≡ f.block b
    unfolding iupdate
    iupdate-high apart b lo =
        let ne : b ≢ iblock sb (f.itable i).inum = λ q. absurd (omega arith) in
        rw (ne→== b (iblock sb (f.itable i).inum) ne) refl

    pub iupdate-byte :
        ((b o : ℕ) → f.block b o < 256) → (b o : ℕ) → (iupdate sb i f).block b o < 256
    unfolding iupdate
    iupdate-byte h b o =
        let ip = f.itable i in
        ground (
          arith,
          h b o,
          write_dinode-byte (f.block (iblock sb ip.inum)) (dinode_offset sb ip.inum) ip o
              (h (iblock sb ip.inum) o),
        )
