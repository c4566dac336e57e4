-- ===== src/Hmac/Laws.antt =====
-- hmac.c computes the HMAC of RFC 2104.
use tinydtls.Base.{
  concat, Bytes, List, [], append-nil, append_assoc, ap₂, bit_xor_assoc, refl, ◌++◌, ◌∙◌, ◌∷◌, ◌≡◌,
}
use tinydtls.Hmac.{HmacContext, xor_pad, update, key_pad, init, finalize}

-- H(K ^ opad, H(K ^ ipad, text)), with K the key padded to a block
abbrev pub hmac : (Bytes → Bytes) → Bytes → Bytes → Bytes
hmac hash key text =
    let k = key_pad hash key in hash (xor_pad k 0x5C ++ hash (xor_pad k 0x36 ++ text))

-- The change from ipad to opad in one step.
repad : (k : Bytes) → xor_pad (xor_pad k 0x36) 0x6A ≡ xor_pad k 0x5C
repad [] = refl
repad (b ∷ k) = ap₂ ◌∷◌ (bit_xor_assoc b 0x36 0x6A) (repad k)

-- The updates of a context, in order.
abbrev pub update_all : HmacContext → List Bytes → HmacContext
update_all ctx [] = ctx
update_all ctx (t ∷ ts) = update_all (update ctx t) ts

update_all_lem :
    (ctx : HmacContext) (ts : List Bytes)
    → update_all ctx ts ≡ record ctx { fed = ctx.fed ++ concat ts }
unfolding update
update_all_lem ctx [] = rw append-nil
update_all_lem ctx (t ∷ ts) = update_all_lem (update ctx t) ts ∙ rw append_assoc

-- A context that is initialised with a key, fed with any sequence of parts and finalised gives the
-- HMAC of the concatenated parts under that key.
pub finalize-update-init :
    (hash : Bytes → Bytes) (key : Bytes) (ts : List Bytes)
    → finalize hash (update_all (init hash key) ts) ≡ hmac hash key (concat ts)
unfolding finalize init
finalize-update-init hash key ts = rw update_all_lem (rw repad)
