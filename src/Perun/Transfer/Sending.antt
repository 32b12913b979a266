-- ===== src/Perun/Transfer/Sending.antt =====
-- Transfer of internal/perun/transaction.go: what has been sent where it gives a hash.
use air_fi.Base.{
  ◌%◌, ◌^◌, ◌≡◌, refl, subst, ◌↔◌, arith, Bool, true, false, not, some, ◌++◌, ok, fail_if, or_fail,
  >>=-ok, or_fail-ok, fail_if-ok,
}
use air_fi.Base.Bytes.{Bytes, codes, hex_encode}
use air_fi.Base.Int.{ℤ, pos, pos_part, ltb_ℤ, ltb_ℤ→ge, ◌≤ℤ◌}
use air_fi.Guest.Address.{Network, main, test}
use air_fi.Perun.Config.{NetworkType, testnet, mainnet, devnet}
use air_fi.Perun.Wallet.{Wallet, sdk_network}
use air_fi.Perun.Transfer.{
  Chain, key_not_loaded, amount_too_small, no_client, no_cells, bad_output, not_built, not_signed,
  not_sent, min_cell_capacity, order_of, transfer,
}

not-false : (b : Bool) → not b ≡ false → b ≡ true
not-false b e = ground (arith)

sdk_network-main : (n : NetworkType) → (sdk_network n ≡ main) ↔ (n ≡ mainnet)
sdk_network-main testnet = (λ e. cc e, λ e. cc e)
sdk_network-main mainnet = (λ e. refl, λ e. refl)
sdk_network-main devnet = (λ e. cc e, λ e. cc e)

same_network :
    (network : Network) (n : NetworkType)
    → (network ≡ main) ↔ (n ≡ mainnet)
    → network ≡ sdk_network n
same_network main n (f, g) = cc (f refl)
same_network test testnet p = refl
same_network test mainnet (f, g) = g refl
same_network test devnet p = refl

ge→ltb_ℤ : (a b : ℤ) → b ≤ℤ a → ltb_ℤ a b ≡ false
ge→ltb_ℤ a b h = ground arith

module _ {Key Tx : Type 0} (chain : Chain Key Tx) where
  -- What has been sent: the order, written out, that the builder is given, and the steps that all go
  -- through. The chain's network is the main one exactly where the wallet's is.
  pub record Sent (w : Wallet Key) (to_address : Bytes) (amount : ℤ) (text : Bytes) : Type 0 where
    pub key : Key
    pub network : Network
    pub tx : Tx
    pub signed : Tx
    pub hash : Bytes
    pub loaded : w.ckb_key ≡ some key
    pub enough : pos 6_100_000_000 ≤ℤ amount
    pub dialled : chain.dial ≡ true
    pub has_money : chain.has_cells w.address ≡ true
    pub is_address : chain.add_output to_address ≡ true
    pub on_main : (network ≡ main) ↔ (w.network ≡ mainnet)
    pub built :
        chain.build (record {
          network = network;
          fee_rate = 1000;
          to_address = to_address;
          amount = pos_part amount % 2 ^ 64;
          change_address = w.address;
        })
        ≡ some tx
    pub signed_by : chain.sign key tx ≡ some signed
    pub sent : chain.send signed ≡ some hash
    pub named : text ≡ codes "0x" ++ hex_encode hash

  transfer-Sent :
      (w : Wallet Key) (to_address : Bytes) (amount : ℤ) (text : Bytes)
      → transfer chain w to_address amount ≡ ok text
      → Sent w to_address amount text
  unfolding transfer
  transfer-Sent w to_address amount text e =
      let (key, e0, e1) = >>=-ok (or_fail w.ckb_key key_not_loaded) _ e in
      let (u1, guard, e2) =
        >>=-ok (fail_if (ltb_ℤ amount (pos min_cell_capacity)) amount_too_small) _ e1 in
      let (u2, dialled, e3) = >>=-ok (fail_if (not chain.dial) no_client) _ e2 in
      let (u3, cells, e4) = >>=-ok (fail_if (not (chain.has_cells w.address)) no_cells) _ e3 in
      let (u4, output, e5) = >>=-ok (fail_if (not (chain.add_output to_address)) bad_output) _ e4 in
      let (tx, e6, e7) =
        >>=-ok (or_fail (chain.build (order_of w to_address amount)) not_built) _ e5 in
      let (signed, e8, e9) = >>=-ok (or_fail (chain.sign key tx) not_signed) _ e7 in
      let (hash, e10, e11) = >>=-ok (or_fail (chain.send signed) not_sent) _ e9 in
      record {
        key = key;
        network = sdk_network w.network;
        tx = tx;
        signed = signed;
        hash = hash;
        loaded = or_fail-ok w.ckb_key key_not_loaded e0;
        enough =
            ltb_ℤ→ge amount (pos min_cell_capacity)
              (fail_if-ok (ltb_ℤ amount (pos min_cell_capacity)) amount_too_small guard);
        dialled = not-false chain.dial (fail_if-ok (not chain.dial) no_client dialled);
        has_money = not-false _ (fail_if-ok (not (chain.has_cells w.address)) no_cells cells);
        is_address = not-false _ (fail_if-ok (not (chain.add_output to_address)) bad_output output);
        on_main = sdk_network-main w.network;
        built = or_fail-ok (chain.build (order_of w to_address amount)) not_built e6;
        signed_by = or_fail-ok (chain.sign key tx) not_signed e8;
        sent = or_fail-ok (chain.send signed) not_sent e10;
        named = cc e11;
      }

  Sent-transfer :
      (w : Wallet Key) (to_address : Bytes) (amount : ℤ) (text : Bytes)
      → Sent w to_address amount text
      → transfer chain w to_address amount ≡ ok text
  unfolding transfer
  Sent-transfer w to_address amount text p =
      let enough = ge→ltb_ℤ amount (pos min_cell_capacity) p.enough in
      let same = same_network p.network w.network p.on_main in
      let built : chain.build (order_of w to_address amount) ≡ some p.tx =
        subst
          (λ n.
            chain.build (record {
              network = n;
              fee_rate = 1000;
              to_address = to_address;
              amount = pos_part amount % 2 ^ 64;
              change_address = w.address;
            })
            ≡ some p.tx)
          same p.built in
      rw
        (
          transfer, p.loaded, enough, p.dialled, p.has_money, p.is_address, built, p.signed_by,
          p.sent, p.named,
        )
        refl

  -- A transfer gives a text exactly where it has been sent under the hash that the text names.
  pub transfer_iff :
      (w : Wallet Key) (to_address : Bytes) (amount : ℤ) (text : Bytes)
      → (transfer chain w to_address amount ≡ ok text) ↔ Sent w to_address amount text
  transfer_iff w to_address amount text =
      (transfer-Sent w to_address amount text, Sent-transfer w to_address amount text)
