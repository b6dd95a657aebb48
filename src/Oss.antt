-- ===== src/Oss.antt =====
-- core/agent-runtime/src/OSSObjectStorageClient.ts: objects in Alibaba's OSS, with the cache of the
-- positions to append at. The package `oss-client` and `Buffer`'s UTF-8 are parameters.
pub mod Laws
pub mod Append
pub mod Stored
pub mod Tests
use tegg.Prelude.{
  ℕ, ◌-◌, ◌^◌, [], ◌≡◌, String, Bool, true, false, List, Option, none, some, Result, ok, err, ◌==◌,
  string_key, if◌then◌else◌, ltb, leb, ◌||◌, not, ℤ, pos, negsuc,
}
use tegg.Prelude.JsMap.{JsMap, get, set}
use tegg.Store.Lines.{Text}

abbrev pub Bytes : Type 0
Bytes = List ℕ

-- What is thrown: an object with a `code`, the `RangeError` of `getRange`, or anything else.
pub data Thrown : Type 0 where
  coded : (code : String) → Thrown
  range_error : (start end_ : ℤ) → Thrown
  other : String → Thrown

-- `OSSObject` of oss-client, over the state of the service. A `get` may have a range, an answer may
-- be without its content or its `content-length`.
pub record OssObject (R : Type 0) : Type 0 where
  pub put : R → String → Bytes → R × Result Thrown (Unit {0})
  pub get : R → String → Option (ℕ × ℕ) → Result Thrown (Option Bytes)
  pub head : R → String → Result Thrown (Option ℕ)
  -- Answers `nextAppendPosition`.
  pub append : R → String → Bytes → (position : ℕ) → R × Result Thrown ℕ

-- `Buffer.from(text, 'utf-8')` and `buffer.toString('utf-8')`
pub record Utf8 : Type 0 where
  pub encode : Text → Bytes
  pub decode : Bytes → Text

pub record OssClient (R : Type 0) : Type 0 where
  pub remote : R
  pub append_positions : JsMap String ℕ

abbrev pub is_oss_error : Thrown → String → Bool
is_oss_error (coded code) expected = code == expected
is_oss_error (range_error start end_) expected = false
is_oss_error (other message) expected = false

-- `??`
abbrev pub or_zero : Option ℕ → ℕ
or_zero none = 0
or_zero (some n) = n

abbrev pub is_safe_integer : ℤ → Bool
is_safe_integer (pos n) = ltb n (2 ^ 53)
is_safe_integer (negsuc n) = ltb n (2 ^ 53 - 1)

-- The numbers that pass the test of `getRange`.
unfoldable pub range_of : ℤ → ℤ → Option (ℕ × ℕ)
range_of (pos start) (pos end_) =
    if not (is_safe_integer (pos start)) || not (is_safe_integer (pos end_)) || ltb end_ start
    then none
    else some (start, end_)
range_of (pos start) (negsuc end_) = none
range_of (negsuc start) end_ = none

module _ {R : Type 0} (oss : OssObject R) (utf8 : Utf8) where
  unfoldable pub put_object : String → Text → OssClient R → OssClient R × Result Thrown (Unit {0})
  put_object key value client =
      let r = oss.put client.remote key (utf8.encode value) in (record client { remote = r.0 }, r.1)

  abbrev pub content_or_null : Option Bytes → Option Text
  content_or_null none = none
  content_or_null (some content) = some (utf8.decode content)

  unfoldable pub get_object : String → OssClient R → Result Thrown (Option Text)
  get_object key client = elim (oss.get client.remote key none) [
    | ok content ↦ ok (content_or_null content)
    | err thrown ↦ if is_oss_error thrown "NoSuchKey" then ok none else err thrown
  ]

  abbrev pub content_or_empty : Option Bytes → Text
  content_or_empty none = []
  content_or_empty (some content) = utf8.decode content

  unfoldable pub get_range : String → (start end_ : ℤ) → OssClient R → Result Thrown (Option Text)
  get_range key start end_ client = elim (range_of start end_) [
    | none ↦ err (range_error start end_)
    | some range ↦ elim (oss.get client.remote key (some range)) [
      | ok content ↦ ok (some (content_or_empty content))
      | err thrown ↦
          if is_oss_error thrown "NoSuchKey"
          then ok none
          else (if is_oss_error thrown "InvalidRange" then ok (some []) else err thrown)
    ]
  ]

  -- After the service has answered an append.
  unfoldable pub keep_position :
      String → R × Result Thrown ℕ → OssClient R → OssClient R × Result Thrown (Unit {0})
  keep_position key (remote, ok next) client =
      (record { remote = remote; append_positions = set key next client.append_positions }, ok tt)
  keep_position key (remote, err thrown) client = (record client { remote = remote }, err thrown)

  -- The answer to `head`, and the second attempt.
  unfoldable pub append_again :
      String
      → Text
      → Result Thrown (Option ℕ)
      → OssClient R
      → OssClient R × Result Thrown (Unit {0})
  unfolding keep_position
  append_again key value (err thrown) client = (client, err thrown)
  append_again key value (ok size) client =
      keep_position key (oss.append client.remote key (utf8.encode value) (or_zero size)) client

  -- What follows the first attempt.
  unfoldable pub settle_append :
      String → Text → R × Result Thrown ℕ → OssClient R → OssClient R × Result Thrown (Unit {0})
  unfolding append_again keep_position
  settle_append key value (remote, ok next) client = keep_position key (remote, ok next) client
  settle_append key value (remote, err thrown) client =
      if is_oss_error thrown "PositionNotEqualToLength"
      then append_again key value (oss.head remote key) (record client { remote = remote })
      else (record client { remote = remote }, err thrown)

  unfoldable pub append_object :
      String → Text → OssClient R → OssClient R × Result Thrown (Unit {0})
  unfolding settle_append
  append_object key value client =
      settle_append key value
        (oss.append client.remote key (utf8.encode value)
          (or_zero (get key client.append_positions)))
        client
