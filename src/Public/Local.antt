-- ===== src/Public/Local.antt =====
-- components/idenpuboffchain/local/local.go: the public data kept in memory. The maps hold pointers, so
-- the data that they point to is opaque here; only its state is read, when it is published.
use go_iden3_core.Prelude.{not, Option, none, some, List, [], ◌∷◌, if◌then◌else◌, bytes_eq}
use go_iden3_core.Result.{
  Result, ok, err, ◌>>=◌, or_panic, bad_url, id_not_found, iden_state_not_found,
}
use go_iden3_core.Common.{Bytes}
use go_iden3_core.Common.Maps.{at_key}
use go_iden3_core.MerkleTree.Elem.{Hash}

unfoldable pub or_err {ℓ} : {A : Type ℓ} → Option A → Result A → Result A
or_err (some a) r = ok a
or_err none r = r

module _ {Data : Type 0} (state_of : Data → Hash) where
  pub record IdenPubOffChainIden : Type 0 where
    pub datas : List (Hash × Data)
    pub last : Option Hash

  pub record IdenPubOffChain : Type 0 where
    pub idens : List (Bytes × IdenPubOffChainIden)
    pub url : Bytes

  -- NewIdenPubOffChain
  abbrev pub new_iden_pub_off_chain : Bytes → IdenPubOffChain
  new_iden_pub_off_chain url = record { idens = []; url = url }

  -- The state that is asked for; the last one, which may be nil, if none is.
  unfoldable pub asked_state : Option Hash → IdenPubOffChainIden → Result Hash
  asked_state (some s) iden = ok s
  asked_state none iden = or_panic iden.last

  -- GetPublicData
  unfoldable pub get_public_data : IdenPubOffChain → Bytes → Bytes → Option Hash → Result Data
  get_public_data ip iden_pub_url id iden_state =
      if not (bytes_eq ip.url iden_pub_url) then err bad_url else do
        iden ← or_err (at_key ip.idens id) (err id_not_found)
        s ← asked_state iden_state iden
        or_err (at_key iden.datas s) (err iden_state_not_found)

  -- The data that an identity has published; none for a new one.
  unfoldable pub datas_of : Option IdenPubOffChainIden → List (Hash × Data)
  datas_of none = []
  datas_of (some iden) = iden.datas

  -- Publish
  unfoldable pub publish : IdenPubOffChain → Bytes → Data → IdenPubOffChain
  publish ip id public_data =
      let datas = (state_of public_data, public_data) ∷ datas_of (at_key ip.idens id) in
      let iden : IdenPubOffChainIden = record {
        datas = datas;
        last = some (state_of public_data);
      } in
      record ip { idens = (id, iden) ∷ ip.idens }
