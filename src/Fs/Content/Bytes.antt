-- ===== src/Fs/Content/Bytes.antt =====
-- The content of a file of kernel/fs.c as bytes: what `bmap` and a write to one block do to it.
use cs202lab.Prelude.{
  ℕ, ◌*◌, ◌/◌, ◌%◌, ◌<◌, ◌≡◌, ◌≢◌, inl, inr, refl, ◌∙◌, ap, sym, arith, ◌==◌, ==→eq, ==→ne, ne→==,
  if◌then◌else◌, Bool-cases,
}
use cs202lab.Fs.Disk.{bsize, Block, Inode, Superblock, Fs}
use cs202lab.Fs.Content.{maxfile}
use cs202lab.Fs.Content.Blocks.{addr_of, Good}
use cs202lab.Fs.Content.Steps.{Step}

-- Byte p of a file, 0 in a hole.
unfoldable pub byte_at : (ℕ → Block) → Inode → ℕ → ℕ
byte_at block ip p =
    let a = addr_of block ip (p / bsize) in if a == 0 then 0 else block a (p % bsize)

byte_at-hole :
    (block : ℕ → Block) (ip : Inode) (p : ℕ)
    → addr_of block ip (p / bsize) ≡ 0
    → byte_at block ip p ≡ 0
unfolding byte_at
byte_at-hole block ip p z = rw z refl

pub byte_at-held :
    (block : ℕ → Block) (ip : Inode) (p a : ℕ)
    → addr_of block ip (p / bsize) ≡ a
    → a ≢ 0
    → byte_at block ip p ≡ block a (p % bsize)
unfolding byte_at
byte_at-held block ip p a e h = rw (e, ne→== a 0 h) refl

module _ (sb : Superblock) where
  module _ {bn : ℕ} {f f' : Fs} {ip ip' : Inode} (g : Good sb f ip) (s : Step sb bn f ip f' ip')
      (p : ℕ) (lp : p < maxfile * bsize) where
    in_file : p / bsize < maxfile
    in_file = omega arith

    byte_at-same_addr :
        addr_of f'.block ip' (p / bsize) ≡ addr_of f.block ip (p / bsize)
        → byte_at f'.block ip' p ≡ byte_at f.block ip p
    byte_at-same_addr e = elim (Bool-cases (addr_of f.block ip (p / bsize) == 0)) [
      | inl z ↦
          let z' = ==→eq (addr_of f.block ip (p / bsize)) 0 z in
          byte_at-hole f'.block ip' p (e ∙ z') ∙ sym (byte_at-hole f.block ip p z')
      | inr h ↦
          let h' = ==→ne (addr_of f.block ip (p / bsize)) 0 h in
          let apart = s.good.owned.apart (p / bsize) in_file (λ z. h' (sym e ∙ z)) in
          let same =
            s.content (addr_of f.block ip (p / bsize)) (g.owned.held (p / bsize) in_file h')
              (λ q. apart (e ∙ q)) in
          byte_at-held f'.block ip' p _ e h'
          ∙ ap (λ (d : Block). d (p % bsize)) same
          ∙ sym (byte_at-held f.block ip p _ refl h')
    ]

    -- A change to the map of a file leaves its bytes.
    pub byte_at-Step : byte_at f'.block ip' p ≡ byte_at f.block ip p
    byte_at-Step = elim (Bool-cases (p / bsize == bn)) [
      | inr other ↦ byte_at-same_addr (s.others (p / bsize) in_file (==→ne (p / bsize) bn other))
      | inl here ↦
          let e : p / bsize ≡ bn = ==→eq (p / bsize) bn here in
          let lt : bn < maxfile = omega (arith, e, in_file) in
          elim (Bool-cases (addr_of f.block ip bn == 0)) [
            | inr h ↦ byte_at-same_addr (rw e (s.kept_addr lt (==→ne (addr_of f.block ip bn) 0 h)))
            | inl z ↦
                let z' : addr_of f.block ip (p / bsize) ≡ 0 =
                  rw e (==→eq (addr_of f.block ip bn) 0 z) in
                elim (Bool-cases (addr_of f'.block ip' bn == 0)) [
                  | inl y ↦
                      byte_at-same_addr
                        (rw e (==→eq (addr_of f'.block ip' bn) 0 y ∙ sym (rw e at z')))
                  | inr h ↦
                      let h' = ==→ne (addr_of f'.block ip' bn) 0 h in
                      let (high, free, zeroed) = s.fresh lt (rw e at z') h' in
                      byte_at-held f'.block ip' p (addr_of f'.block ip' bn)
                        (ap (addr_of f'.block ip') e) h'
                      ∙ zeroed (p % bsize) (omega arith)
                      ∙ sym (byte_at-hole f.block ip p z')
                ]
          ]
    ]
