-- ===== src/Results/Engines.antt =====
-- lib/pygpgme-engine-info.c: `pygpgme_engine_info_list_new`.
use pygpgme.Base.{
  ℕ, ◌≡◌, ◌≢◌, refl, true, Option, none, some, List, [], ◌∷◌, ◌++◌, map, if◌then◌else◌, arith,
  length,
}
use mathlib.Core.List.{append-nil, append_assoc}
use pygpgme.Base.Int.{pos}
use pygpgme.Python.Value.{EnumName, Text, Value, none_value, str, value_error}
use pygpgme.Python.State.{Platform, PyState, new_object, set_error, occurred, lose}
use pygpgme.Constants.Lookup.{enum_value_new}
use pygpgme.Constants.Values.{enum_view, enum_value_new-eq_view}
use pygpgme.Errors.View.{AreEnumerations, IsQuiet}

-- struct _gpgme_engine_info
pub record EngineRaw : Type 0 where
  pub protocol : ℕ
  pub file_name : Option Text
  pub version : Option Text
  pub req_version : Option Text
  pub home_dir : Option Text

-- `PyGpgmeEngineInfo`; a field is `none` where its pointer is `NULL`.
pub record EngineInfo : Type 0 where
  pub protocol : Option Value
  pub file_name : Option Value
  pub version : Option Value
  pub req_version : Option Value
  pub home_dir : Option Value

-- `PyUnicode_FromString`, or `None` for `NULL`.
unfoldable pub text_or_none : Platform → Option Text → PyState → Option Value × PyState
text_or_none P none s = (some none_value, s)
text_or_none P (some t) s = elim (P.strict_utf8 t) [
  | none ↦ (none, set_error value_error s)
  | some u ↦ (some (str u), s)
]

unfoldable pub engine_info : Platform → EngineRaw → PyState → EngineInfo × PyState
engine_info P info s =
    let (protocol, s1) = enum_value_new P EnumName.protocol (pos info.protocol) s in
    let (file_name, s2) = text_or_none P info.file_name s1 in
    let (version, s3) = text_or_none P info.version s2 in
    let (req_version, s4) = text_or_none P info.req_version s3 in
    let (home_dir, s5) = text_or_none P info.home_dir s4 in
    (
      record {
        protocol = protocol;
        file_name = file_name;
        version = version;
        req_version = req_version;
        home_dir = home_dir;
      },
      s5,
    )

-- Without memory the list so far is released, and its items are not freed.
unfoldable pub engine_info_list_from :
    Platform → List EngineInfo → List EngineRaw → PyState → Option (List EngineInfo) × PyState
engine_info_list_from P done [] s = (some done, s)
engine_info_list_from P done (info ∷ rest) s =
    let (fits, s1) = new_object s in
    let (item, s2) = engine_info P info s1 in
    let next = engine_info_list_from P (done ++ (item ∷ [])) rest s2 in
    if fits then next else (none, lose (length done) s1)

-- `pygpgme_engine_info_list_new`
unfoldable pub engine_info_list_new :
    Platform → List EngineRaw → PyState → Option (List EngineInfo) × PyState
unfolding engine_info_list_from engine_info text_or_none enum_value_new
engine_info_list_new P infos s = engine_info_list_from P [] infos s

-- The object for a text: the text decoded, or `None`.
abbrev pub text_view : Platform → Option Text → Option Value
text_view P none = some none_value
text_view P (some t) = elim (P.strict_utf8 t) [ none ↦ none | some u ↦ some (str u) ]

pub engine_view : Platform → EngineRaw → EngineInfo
engine_view P info = record {
  protocol = some (enum_view P EnumName.protocol (pos info.protocol));
  file_name = text_view P info.file_name;
  version = text_view P info.version;
  req_version = text_view P info.req_version;
  home_dir = text_view P info.home_dir;
}

-- The text is UTF-8, or there is none.
abbrev pub IsUtf8 : Platform → Option Text → Type 0
IsUtf8 P none = none_value ≡ none_value
IsUtf8 P (some t) = P.strict_utf8 t ≢ none

-- All texts of an engine are UTF-8.
pub record AreUtf8 (P : Platform) (info : EngineRaw) : Type 0 where
  pub file_name_ok : IsUtf8 P info.file_name
  pub version_ok : IsUtf8 P info.version
  pub req_version_ok : IsUtf8 P info.req_version
  pub home_dir_ok : IsUtf8 P info.home_dir

text_or_none-eq_view :
    (P : Platform) (t : Option Text) (s : PyState)
    → IsUtf8 P t
    → text_or_none P t s ≡ (text_view P t, s)
unfolding text_or_none
text_or_none-eq_view P none s h = refl
text_or_none-eq_view P (some t) s h = ground arith

-- All texts of all engines are.
unfoldable pub AllUtf8 : Platform → List EngineRaw → Type 0
AllUtf8 P [] = none_value ≡ none_value
AllUtf8 P (info ∷ rest) = AreUtf8 P info × AllUtf8 P rest

module _ (P : Platform) (h : AreEnumerations P) (s : PyState) (q : IsQuiet s) where
  engine_info-eq_view :
      (info : EngineRaw) → AreUtf8 P info → engine_info P info s ≡ (engine_view P info, s)
  unfolding engine_info engine_view
  engine_info-eq_view info u = simp (
    enum_value_new-eq_view P EnumName.protocol (pos info.protocol) s (h.each _) q.no_exc,
    text_or_none-eq_view P info.file_name s u.file_name_ok,
    text_or_none-eq_view P info.version s u.version_ok,
    text_or_none-eq_view P info.req_version s u.req_version_ok,
    text_or_none-eq_view P info.home_dir s u.home_dir_ok,
  )

  engine_info_list_from-eq_map :
      (done : List EngineInfo) (l : List EngineRaw)
      → AllUtf8 P l
      → engine_info_list_from P done l s ≡ (some (done ++ map (engine_view P) l), s)
  unfolding engine_info_list_from AllUtf8
  engine_info_list_from-eq_map done [] u = rw append-nil
  engine_info_list_from-eq_map done (info ∷ rest) (u, us) = ground (
    arith,
    engine_info-eq_view info u,
    engine_info_list_from-eq_map (done ++ (engine_view P info ∷ [])) rest us,
    append_assoc done (engine_view P info ∷ []) (map (engine_view P) rest),
  )

  -- With memory, the extension's enumerations, no exception pending and all texts in UTF-8, the list of
  -- engines is the C list turned field by field and in order, and the thread's state is unchanged.
  pub engine_info_list_new-eq_map :
      (l : List EngineRaw)
      → AllUtf8 P l
      → engine_info_list_new P l s ≡ (some (map (engine_view P) l), s)
  unfolding engine_info_list_new
  engine_info_list_new-eq_map l u = engine_info_list_from-eq_map [] l u

-- A home directory that is no UTF-8 is not noticed: where the engine with it is the last, the list is
-- returned with the `UnicodeDecodeError` still pending.
pub engine_info_list_new_misses :
    (P : Platform) (info : EngineRaw) (t : Text) (s : PyState)
    → s.mem ≡ []
    → info.home_dir ≡ some t
    → P.strict_utf8 t ≡ none
    → ((engine_info_list_new P (info ∷ []) s).0 ≢ none)
      × (occurred (engine_info_list_new P (info ∷ []) s).1 ≡ true)
unfolding engine_info_list_new
engine_info_list_new_misses P info t s m e d = ground (arith, m, e, d)
