-- ===== src/Programs.antt =====
-- loadPart of render.go: a program from the cache, or loaded, compiled and put there. An engine's Compile
-- and the loader of a request are parameters.
pub mod Reused
use nanite_render.Prelude.{◌⊎◌, inl, inr, Bool, true, false, Option, none, some, ◌>>=◌, [], Bytes}
use nanite_render.Cache.{Cache, get, put}

pub data LoadError (E : Type 0) : Type 0 where
  engine_not_found : LoadError E
  template_not_found : E → LoadError E
  loader_missing : LoadError E
  compile_failed : E → LoadError E

-- an engine, with whether it is Sourceless
pub record Engine (E P : Type 0) : Type 0 where
  pub sourceless : Bool
  pub compile : Bytes → Bytes → E ⊎ P

module _ {E : Type 0} where
  -- the outcome of a loader or of Compile
  unfoldable pub or_error : {A : Type 0} → (E → LoadError E) → E ⊎ A → LoadError E ⊎ A
  or_error wrap (inl e) = inl (wrap e)
  or_error wrap (inr a) = inr a

  -- `rc.Loader` of a request; `none` also where there is no context
  unfoldable pub source : Bool → Option (Bytes → E ⊎ Bytes) → Bytes → LoadError E ⊎ Bytes
  source true loader name = inr []
  source false none name = inl loader_missing
  source false (some loader) name = or_error template_not_found (loader name)

module _ {E P : Type 0} where
  unfoldable pub compile_source : Engine E P → Bytes → LoadError E ⊎ Bytes → LoadError E ⊎ P
  compile_source eng name (inl e) = inl e
  compile_source eng name (inr src) = or_error compile_failed (eng.compile src name)

  unfoldable pub compiled : Engine E P → Option (Bytes → E ⊎ Bytes) → Bytes → LoadError E ⊎ P
  compiled eng loader name = compile_source eng name (source eng.sourceless loader name)

  -- a program that was compiled is put into the cache
  unfoldable pub put_compiled :
      Bytes → Bytes → LoadError E ⊎ P → Cache P → Option ((LoadError E ⊎ P) × Cache P)
  put_compiled engine name (inl e) c = some (inl e, c)
  put_compiled engine name (inr p) c = put engine name p c >>= λ c'. some (inr p, c')

  unfoldable pub after_get :
      Engine E P
      → Bytes
      → Bytes
      → Option (Bytes → E ⊎ Bytes)
      → Option P
      → Cache P
      → Option ((LoadError E ⊎ P) × Cache P)
  after_get eng engine name loader (some p) c = some (inr p, c)
  after_get eng engine name loader none c = put_compiled engine name (compiled eng loader name) c

  -- `none` is an endless loop or an index out of range in the cache
  unfoldable pub load_part :
      Option (Engine E P)
      → Bytes
      → Bytes
      → Option (Bytes → E ⊎ Bytes)
      → Cache P
      → Option ((LoadError E ⊎ P) × Cache P)
  load_part none engine name loader c = some (inl engine_not_found, c)
  load_part (some eng) engine name loader c =
      get engine name c >>= λ (r : Option P × Cache P). after_get eng engine name loader r.0 r.1
