-- ===== src/Cache/Storage.antt =====
-- Binlog_cache_storage, whose code is not in the repository: a growing sequence of bytes.
use knowledge_base.Base.{
  ℕ, ◌+◌, ◌≤◌, ◌≡◌, refl, List, [], ◌++◌, length, length-append, take, take-append, take_all,
}

pub record Storage (S : Type 0) : Type 0 where
  pub size : S → ℕ
  pub append : S → List ℕ → S
  pub cut : S → ℕ → S
  pub clear : S → S
  pub disk_writes : S → ℕ

-- What the code relies on: bytes are added at the end, and a truncation drops what was added after
-- the position.
pub record Laws {S : Type 0} (st : Storage S) : Type 0 where
  pub size-append :
      (s : S) (bytes : List ℕ) → st.size (st.append s bytes) ≡ st.size s + length bytes
  pub cut-append :
      (s : S) (bytes : List ℕ) (n : ℕ) → n ≤ st.size s → st.cut (st.append s bytes) n ≡ st.cut s n
  pub cut_all : (s : S) → st.cut s (st.size s) ≡ s
  pub size-clear : (s : S) → st.size (st.clear s) ≡ 0

-- A list of bytes is such a storage.
abbrev pub bytes_storage : Storage (List ℕ)
bytes_storage = record {
  size = length;
  append = ◌++◌;
  cut = λ s n. take n s;
  clear = λ s. [];
  disk_writes = λ s. 0;
}

pub bytes_laws : Laws bytes_storage
bytes_laws = record {
  size-append = length-append;
  cut-append = λ s bytes n h. take-append s bytes n h;
  cut_all = take_all;
  size-clear = λ s. refl;
}
