-- ===== src/Fs/Dinode.antt =====
-- What iupdate writes of an inode is what ilock reads back.
use minios.Base.{
  ℕ, zero, suc, ◌+◌, ◌*◌, ◌^◌, ◌<◌, ◌≤◌, ◌≡◌, inl, inr, refl, sym, ap, ◌∙◌, subst, true, false,
  ◌==◌, ==_refl, arith, Bool-cases,
}
use minios.Kern.{ok}
use minios.Fs.{Fs, Inode, Bytes, iblock, write_block}
use minios.Fs.Words.{load, store, limit, load-store, load-store_other}
use minios.Fs.Itable.{
  store_addrs, to_disk, from_disk, iupdate, read_inode, loaded, set_inode, dinode_off,
}

addrs_other :
    (n k : ℕ) (addrs : ℕ → ℕ) (off : ℕ) (v : Bytes) (o : ℕ)
    → o + k ≤ off + 12
    → load k (store_addrs n addrs off v) o ≡ load k v o
unfolding store_addrs
addrs_other zero k addrs off v o h = refl
addrs_other (suc n) k addrs off v o h =
    load-store_other k 4 (store_addrs n addrs off v) o (off + 12 + 4 * n) (addrs n)
      (inl (omega arith))
    ∙ addrs_other n k addrs off v o h

addrs_self :
    (n i : ℕ) (addrs : ℕ → ℕ) (off : ℕ) (v : Bytes)
    → i < n
    → addrs i < limit 4
    → load 4 (store_addrs n addrs off v) (off + 12 + 4 * i) ≡ addrs i
unfolding store_addrs
addrs_self zero i addrs off v lt fits = absurd (omega arith)
addrs_self (suc n) i addrs off v lt fits = elim (Bool-cases (i == n)) [
  | inl e ↦
      let same : n ≡ i = ground arith in
      subst
        (λ m.
          load 4 (store 4 (store_addrs m addrs off v) (off + 12 + 4 * m) (addrs m))
            (off + 12 + 4 * i)
          ≡ addrs i)
        (sym same) (load-store 4 (store_addrs i addrs off v) (off + 12 + 4 * i) (addrs i) fits)
  | inr e ↦
      load-store_other 4 4 (store_addrs n addrs off v) (off + 12 + 4 * i) (off + 12 + 4 * n)
        (addrs n) (inl (ground arith))
      ∙ addrs_self n i addrs off v (ground arith) fits
]

-- The fields are within the widths of their types.
pub record IsInode (ip : Inode) : Type 0 where
  pub type_fits : ip.type < 2 ^ 16
  pub major_fits : ip.major < 2 ^ 16
  pub minor_fits : ip.minor < 2 ^ 16
  pub nlink_fits : ip.nlink < 2 ^ 16
  pub size_fits : ip.size < 2 ^ 32
  pub addrs_fit : (i : ℕ) → ip.addrs i < 2 ^ 32

-- The fields that are on disk agree.
pub record SameFields (a b : Inode) : Type 0 where
  pub type : a.type ≡ b.type
  pub major : a.major ≡ b.major
  pub minor : a.minor ≡ b.minor
  pub nlink : a.nlink ≡ b.nlink
  pub size : a.size ≡ b.size
  pub addrs : (i : ℕ) → i < 13 → a.addrs i ≡ b.addrs i

from_disk-to_disk :
    (ip old : Inode) (off : ℕ) (v : Bytes)
    → IsInode ip
    → SameFields (from_disk (to_disk ip off v) off old) ip
unfolding from_disk to_disk
from_disk-to_disk ip old off v x =
    let v1 = store 2 v off ip.type in
    let v2 = store 2 v1 (off + 2) ip.major in
    let v3 = store 2 v2 (off + 4) ip.minor in
    let v4 = store 2 v3 (off + 6) ip.nlink in
    let v5 = store 4 v4 (off + 8) ip.size in
    record {
      type =
          addrs_other 13 2 ip.addrs off v5 off (omega arith)
          ∙ load-store_other 2 4 v4 off (off + 8) ip.size (inl (omega arith))
          ∙ load-store_other 2 2 v3 off (off + 6) ip.nlink (inl (omega arith))
          ∙ load-store_other 2 2 v2 off (off + 4) ip.minor (inl (omega arith))
          ∙ load-store_other 2 2 v1 off (off + 2) ip.major (inl (omega arith))
          ∙ load-store 2 v off ip.type x.type_fits;
      major =
          addrs_other 13 2 ip.addrs off v5 (off + 2) (omega arith)
          ∙ load-store_other 2 4 v4 (off + 2) (off + 8) ip.size (inl (omega arith))
          ∙ load-store_other 2 2 v3 (off + 2) (off + 6) ip.nlink (inl (omega arith))
          ∙ load-store_other 2 2 v2 (off + 2) (off + 4) ip.minor (inl (omega arith))
          ∙ load-store 2 v1 (off + 2) ip.major x.major_fits;
      minor =
          addrs_other 13 2 ip.addrs off v5 (off + 4) (omega arith)
          ∙ load-store_other 2 4 v4 (off + 4) (off + 8) ip.size (inl (omega arith))
          ∙ load-store_other 2 2 v3 (off + 4) (off + 6) ip.nlink (inl (omega arith))
          ∙ load-store 2 v2 (off + 4) ip.minor x.minor_fits;
      nlink =
          addrs_other 13 2 ip.addrs off v5 (off + 6) (omega arith)
          ∙ load-store_other 2 4 v4 (off + 6) (off + 8) ip.size (inl (omega arith))
          ∙ load-store 2 v3 (off + 6) ip.nlink x.nlink_fits;
      size =
          addrs_other 13 4 ip.addrs off v5 (off + 8) (omega arith)
          ∙ load-store 4 v4 (off + 8) ip.size x.size_fits;
      addrs = λ i lt. addrs_self 13 i ip.addrs off v5 lt (x.addrs_fit i);
    }

written-block :
    (ip : ℕ) (s : Fs)
    → (iupdate ip s).block (iblock (s.inode ip).inum s)
      ≡ to_disk (s.inode ip) (dinode_off (s.inode ip).inum) (s.block (iblock (s.inode ip).inum s))
unfolding iupdate write_block
written-block ip s = rw (==_refl (iblock (s.inode ip).inum s)) refl

loaded-iupdate :
    (ip jp : ℕ) (s : Fs)
    → IsInode (s.inode ip)
    → (s.inode jp).inum ≡ (s.inode ip).inum
    → SameFields (loaded jp (iupdate ip s)) (s.inode ip)
unfolding loaded iupdate write_block
loaded-iupdate ip jp s x same =
    let off = dinode_off (s.inode ip).inum in
    let b = iblock (s.inode ip).inum s in
    subst
      (λ n.
        SameFields
          (from_disk ((iupdate ip s).block (iblock n s)) (dinode_off n) ((iupdate ip s).inode jp))
          (s.inode ip))
      (sym same)
      (subst (λ v. SameFields (from_disk v off ((iupdate ip s).inode jp)) (s.inode ip))
        (sym (written-block ip s))
        (from_disk-to_disk (s.inode ip) ((iupdate ip s).inode jp) off (s.block b) x))

read_inode-loaded :
    (jp : ℕ) (s : Fs)
    → (s.inode jp).valid ≡ false
    → 0 < (loaded jp s).type
    → read_inode jp s ≡ ok tt (set_inode jp (let w = loaded jp s in record w { valid = true }) s)
unfolding read_inode
read_inode-loaded jp s fresh pos =
    let typed : ((loaded jp s).type == 0) ≡ false = ground arith in rw (fresh, typed) refl

-- The round trip of an inode through the disk: where iupdate has written an inode of the table, and
-- the inode has a type, an inode of the table with the same number that is not valid yet becomes
-- valid in ilock, and gets the same type, device numbers, link count, size and block addresses.
pub iupdate-read_inode :
    (ip jp : ℕ) (s : Fs)
    → IsInode (s.inode ip)
    → (s.inode jp).inum ≡ (s.inode ip).inum
    → (s.inode jp).valid ≡ false
    → 0 < (s.inode ip).type
    → (t : Fs) × (read_inode jp (iupdate ip s) ≡ ok tt t)
      × SameFields (t.inode jp) (s.inode ip)
      × ((t.inode jp).valid ≡ true)
unfolding iupdate write_block
iupdate-read_inode ip jp s x same fresh pos =
    let f = loaded-iupdate ip jp s x same in
    let w = loaded jp (iupdate ip s) in
    let v = record w { valid = true } in
    let self : (set_inode jp v (iupdate ip s)).inode jp ≡ v = rw (==_refl jp) refl in
    (
      set_inode jp v (iupdate ip s),
      read_inode-loaded jp (iupdate ip s) fresh (subst (λ n. 0 < n) (sym f.type) pos),
      subst (λ a. SameFields a (s.inode ip)) (sym self)
          (record {
            type = f.type;
            major = f.major;
            minor = f.minor;
            nlink = f.nlink;
            size = f.size;
            addrs = f.addrs;
          }),
      ap (λ a. a.valid) self,
    )
