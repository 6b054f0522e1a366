-- ===== src/Store/Valkey/Driver.antt =====
-- What pkg/store/store_valkey.go takes from valkey-go, encoding/json and the clock, and what is
-- documented of them.
use agentcube.Prelude.{ℕ, ◌≡◌, String, true, Option, none, some, List, [], ◌∷◌, map, if◌then◌else◌}
use agentcube.Errors.{Error, is_redis_nil, Result, ok, err, Try}
use agentcube.Time.{Time}
use agentcube.Types.{SandboxInfo}
use agentcube.Store.Keyspace.{
  Keyspace, Command, text_at, exists, apply, apply_all, overwrite, Ranged,
}

-- The commands that the store sends, with the conversion of their replies; a nil reply is
-- `redis_nil`. A range query gives the scores with the members, whether the store asks for them or not.
pub record Valkey (W : Type 0) : Type 0 where
  pub now : W → Time
  pub marshal : SandboxInfo → Result String
  pub unmarshal : String → Result SandboxInfo
  pub ping : Try W String
  pub get : String → Try W String
  -- SET with XX: the reply, or nil where the key does not exist.
  pub set_xx : String → String → Try W String
  pub mget : List String → Try W (List String)
  pub exists_count : String → Try W ℕ
  pub run : Command → Try W (Unit {0})
  -- `DoMulti`: the error of each command.
  pub do_multi : List Command → W → List (Option Error) × W
  pub z_range_by_score : String → ℕ → ℕ → Try W (List (String × ℕ))

-- The first error of the responses, in the order of the commands.
unfoldable pub first_failed : List (Option Error) → Option Error
first_failed [] = none
first_failed (none ∷ es) = first_failed es
first_failed (some e ∷ es) = some e

-- MGET's reply as texts: "" where a key has no text.
abbrev pub text_or_empty : Option String → String
text_or_empty none = ""
text_or_empty (some b) = b

-- The server holds `view w`, and no other client acts during a call. A command that succeeds has
-- had its documented effect.
pub record IsValkey {W : Type 0} (R : Valkey W) (view : W → Keyspace) : Type 0 where
  pub unmarshal-marshal :
      (s : SandboxInfo) (b : String)
      → R.marshal s ≡ ok b
      → R.unmarshal b ≡ ok (record s { last_activity_at = 0 })
  pub get-ok : (k b : String) (w : W) → (R.get k w).0 ≡ ok b → text_at (view w) k ≡ some b
  pub get-nil :
      (k : String) (w : W) {e : Error}
      → (R.get k w).0 ≡ err e
      → is_redis_nil e ≡ true
      → text_at (view w) k ≡ none
  pub set_xx-ok :
      (k b : String) (w : W)
      → (R.set_xx k b w).0 ≡ ok "OK"
      → (exists (view w) k ≡ true) × (view (R.set_xx k b w).1 ≡ overwrite k b (view w))
  pub mget-view : (ks : List String) (w : W) → view (R.mget ks w).1 ≡ view w
  pub mget-ok :
      (ks : List String) (w : W) (texts : List String)
      → (R.mget ks w).0 ≡ ok texts
      → texts ≡ map (λ k. text_or_empty (text_at (view w) k)) ks
  pub exists_count-view : (k : String) (w : W) → view (R.exists_count k w).1 ≡ view w
  pub exists_count-ok :
      (k : String) (w : W) (n : ℕ)
      → (R.exists_count k w).0 ≡ ok n
      → n ≡ (if exists (view w) k then 1 else 0)
  pub run-ok : (c : Command) (w : W) → (R.run c w).0 ≡ ok tt → view (R.run c w).1 ≡ apply c (view w)
  pub do_multi-ok :
      (commands : List Command) (w : W)
      → first_failed (R.do_multi commands w).0 ≡ none
      → view (R.do_multi commands w).1 ≡ apply_all commands (view w)
  pub z_range_by_score-view :
      (k : String) (max limit : ℕ) (w : W) → view (R.z_range_by_score k max limit w).1 ≡ view w
  pub z_range_by_score-ok :
      (k : String) (max limit : ℕ) (w : W) (zs : List (String × ℕ))
      → (R.z_range_by_score k max limit w).0 ≡ ok zs
      → Ranged (view w) k max limit zs
