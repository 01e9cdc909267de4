-- ===== src/Domain/File.antt =====
-- internal/domain/file.go: files and their metadata. Times are nanoseconds since an epoch.
use verus_gateway.Base.{ℕ, Bool, Option}
use verus_gateway.Base.Bytes.{Bytes, Str}

pub record FileMetadata : Type 0 where
  pub filename : Str
  pub size : ℕ
  pub content_type : Str
  pub extension : Str
  pub hash : Str
  pub compressed : Bool
  pub encrypted : Bool
  pub created_at : Option ℕ

-- The pointer `Metadata` may be nil.
pub record File : Type 0 where
  pub txid : Str
  pub chain_id : Str
  pub content : Bytes
  pub metadata : Option FileMetadata
  pub retrieved_at : ℕ
